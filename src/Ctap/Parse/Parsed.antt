-- ===== src/Ctap/Parse/Parsed.antt =====
-- The result of a parser that reports a status: a value, or the status where it stops.
use zerofido.Base.{ℕ, zero, suc, ◌≡◌, refl, subst, arith, Bool, true, false, Option, none, some}
use zerofido.Cbor.Decode.{Cursor}
use zerofido.Ctap.Status.{Status, err_invalid_cbor}

pub data Parsed {ℓ} (A : Type ℓ) : Type ℓ where
  parsed : A → Parsed A
  stop : Status → Parsed A

infixl 5 ◌>>=◌ ◌>>◌
abbrev pub ◌>>=◌ {ℓ κ} : {A : Type ℓ} {B : Type κ} → Parsed A → (A → Parsed B) → Parsed B
stop status >>= next = stop status
parsed value >>= next = next value

abbrev pub ◌>>◌ {ℓ} : {B : Type ℓ} → Parsed (Unit {0}) → Parsed B → Parsed B
test >> next = test >>= λ _. next

-- `if (bad) return status;`
abbrev pub refuse : Bool → Status → Parsed (Unit {0})
refuse true e = stop e
refuse false e = parsed tt

-- `if (!read(cursor)) return ZF_CTAP_ERR_INVALID_CBOR;`
abbrev pub cbor {ℓ} : {A : Type ℓ} → Option A → Parsed A
cbor none = stop err_invalid_cbor
cbor (some a) = parsed a

-- `for (i = 0; i < pairs; ++i)`, where the body reads one item and may stop the loop.
unfoldable pub for_items {ℓ} :
    {S : Type ℓ} → (S → Cursor → Parsed (S × Cursor)) → ℕ → S → Cursor → Parsed (S × Cursor)
for_items body zero s c = parsed (s, c)
for_items body (suc items) s c = do (s', c') ← body s c; for_items body items s' c'

-- What holds of the value, if there is one.
pub Ensures {ℓ κ} : {A : Type ℓ} → (A → Type κ) → Parsed A → Type (ℓ ⊔ κ)
Ensures {A = A} P m = (a : A) → m ≡ parsed a → P a

module _ {ℓ κ} {A : Type ℓ} (P : A → Type κ) where
  pub parsed-Ensures : (a : A) → P a → Ensures P (parsed a)
  unfolding Ensures
  parsed-Ensures a h b e = let same : a ≡ b = ground arith in subst P same h

  pub stop-Ensures : (e : Status) → Ensures P (stop e)
  unfolding Ensures
  stop-Ensures e a h = cc

  pub refuse-Ensures :
      (bad : Bool) (e : Status) (m : Parsed A)
      → (bad ≡ false → Ensures P m)
      → Ensures P (refuse bad e >> m)
  refuse-Ensures true e m h = stop-Ensures e
  refuse-Ensures false e m h = h refl

  pub Ensures-at : {m : Parsed A} {a : A} → Ensures P m → m ≡ parsed a → P a
  unfolding Ensures
  Ensures-at {a = a} h e = h a e

pub bind-Ensures {ℓ κ μ} :
    {A : Type ℓ} {B : Type κ} (P : B → Type μ) (m : Parsed A) (f : A → Parsed B)
    → ((a : A) → m ≡ parsed a → Ensures P (f a))
    → Ensures P (m >>= f)
bind-Ensures P (parsed a) f h = h a refl
bind-Ensures P (stop e) f h = stop-Ensures P e

-- The invariant of a loop.
pub for_items-Ensures {ℓ κ} :
    {S : Type ℓ} (P : S → Type κ) (body : S → Cursor → Parsed (S × Cursor))
    → ((s : S) (c : Cursor) → P s → Ensures (λ (r : S × Cursor). P r.0) (body s c))
    → (items : ℕ) (s : S) (c : Cursor) → P s
    → Ensures (λ (r : S × Cursor). P r.0) (for_items body items s c)
unfolding for_items
for_items-Ensures P body keep zero s c h = parsed-Ensures (λ r. P r.0) (s, c) h
for_items-Ensures P body keep (suc items) s c h =
    bind-Ensures (λ r. P r.0) (body s c) _
      (λ r e.
        for_items-Ensures P body keep items r.0 r.1
          (Ensures-at (λ (r : _ × Cursor). P r.0) (keep s c h) e))

-- What a reader returned, if its result goes on.
pub cbor_inv {ℓ} : {A : Type ℓ} (o : Option A) {a : A} → cbor o ≡ parsed a → o ≡ some a
cbor_inv none e = cc
cbor_inv (some a) e = ground arith

-- A chain that ends with a value has one behind each step.
pub >>=-parsed {ℓ κ} :
    {A : Type ℓ} {B : Type κ} (step : Parsed A) (next : A → Parsed B) {result : B}
    → (step >>= next) ≡ parsed result
    → (value : A) × (step ≡ parsed value) × (next value ≡ parsed result)
>>=-parsed (stop status) next h = cc
>>=-parsed (parsed value) next h = (value, refl, h)
