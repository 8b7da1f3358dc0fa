-- ===== src/Pin/Retry/Budget.antt =====
-- How many wrong PIN hashes can be tried in a running session, whatever the storage does.
use zerofido.Base.{
  ℕ, ◌+◌, ◌≤◌, ◌<◌, ◌≡◌, ◌⊎◌, true, Bool, not, ◌&&◌, some, List, arith, ◌==◌, if◌then◌else◌,
}
use zerofido.Ctap.Status.{is_success}
use zerofido.Pin.State.{
  ClientPinState, KeyAgreement, pin_retries_max, pin_hash_len, constant_time_equal,
}
use zerofido.Pin.Retry.{
  StateStore, note_pin_auth_mismatch, auth_failure, auth_success, verify_hash, resume_auth_attempts,
}

-- A session with two counts that the code does not keep: the wrong hashes that were compared since
-- the PIN was last accepted, and those since it was accepted or the throttle was lifted.
pub record Session (Storage : Type 0) : Type 0 where
  pub state : ClientPinState
  pub storage : Storage
  pub guesses : ℕ
  pub streak : ℕ

-- Whether `zf_pin_verify_hash` gets as far as the comparison, and finds the hash wrong.
abbrev pub is_wrong_guess : List ℕ → ClientPinState → Bool
is_wrong_guess pin_hash state =
    state.pin_set
    && not state.pin_auth_blocked
    && not (state.pin_retries == 0)
    && not (constant_time_equal pin_hash_len pin_hash state.pin_hash)

module _ {Storage : Type 0} (store : StateStore Storage) where
  pub guess : KeyAgreement → List ℕ → Session Storage → Session Storage
  guess key pin_hash s =
      let (status, state', storage') = verify_hash store (some key) pin_hash s.state s.storage in
      let wrong = is_wrong_guess pin_hash s.state in
      record {
        state = state';
        storage = storage';
        guesses = if wrong then s.guesses + 1 else if is_success status then 0 else s.guesses;
        streak = if wrong then s.streak + 1 else if is_success status then 0 else s.streak;
      }

  pub resume : Session Storage → Session Storage
  resume s =
      let (resumed, state', storage') = resume_auth_attempts store s.state s.storage in
      record s { state = state'; storage = storage'; streak = if resumed then 0 else s.streak }

  pub bad_pin_auth : Session Storage → Session Storage
  bad_pin_auth s =
      let (status, state', storage') = note_pin_auth_mismatch store s.state s.storage in
      record s { state = state'; storage = storage' }

  pub data Step (s : Session Storage) : Session Storage → Type 0 where
    guessed : (key : KeyAgreement) (pin_hash : List ℕ) → Step s (guess key pin_hash s)
    resumed : Step s (resume s)
    auth_refused : Step s (bad_pin_auth s)

  pub data Reach (s : Session Storage) : Session Storage → Type 0 where
    here : Reach s s
    next : {t u : Session Storage} → Reach s t → Step t u → Reach s u

pub record IsBounded {Storage : Type 0} (s : Session Storage) : Type 0 where
  pub budget : s.guesses + s.state.pin_retries ≤ pin_retries_max
  pub throttle : s.streak ≤ 3
  pub counted : s.streak ≤ s.state.pin_consecutive_mismatches
  pub blocks : (s.state.pin_auth_blocked ≡ true) ⊎ (s.state.pin_consecutive_mismatches < 3)

module _ {Storage : Type 0} (store : StateStore Storage) where
  guess-IsBounded :
      (key : KeyAgreement) (pin_hash : List ℕ) (s : Session Storage)
      → IsBounded s
      → IsBounded (guess store key pin_hash s)
  unfolding guess verify_hash auth_failure auth_success
  guess-IsBounded key pin_hash s v = ground arith

  resume-IsBounded : (s : Session Storage) → IsBounded s → IsBounded (resume store s)
  unfolding resume resume_auth_attempts
  resume-IsBounded s v = ground arith

  bad_pin_auth-IsBounded : (s : Session Storage) → IsBounded s → IsBounded (bad_pin_auth store s)
  unfolding bad_pin_auth note_pin_auth_mismatch
  bad_pin_auth-IsBounded s v = ground arith

  Step-IsBounded : {s t : Session Storage} → Step store s t → IsBounded s → IsBounded t
  Step-IsBounded {s = s} (guessed key pin_hash) v = guess-IsBounded key pin_hash s v
  Step-IsBounded {s = s} resumed v = resume-IsBounded s v
  Step-IsBounded {s = s} auth_refused v = bad_pin_auth-IsBounded s v

  Reach-IsBounded : {s t : Session Storage} → IsBounded s → Reach store s t → IsBounded t
  Reach-IsBounded v here = v
  Reach-IsBounded v (next r st) = Step-IsBounded st (Reach-IsBounded v r)

  -- From a state with at most eight retries that is throttled or below three mismatches, with any
  -- interleaving of PIN attempts for which a fresh key can be made, refused pinUvAuthParams and local
  -- resumes, and with any behaviour of the storage: the wrong hashes compared since the PIN was last accepted and the retries left
  -- are together at most eight, and at most three wrong hashes are compared without an accepted PIN
  -- or a resume in between.
  pub wrong_guesses_bounded :
      {s t : Session Storage}
      → s.guesses ≡ 0
      → s.streak ≡ 0
      → s.state.pin_retries ≤ pin_retries_max
      → (s.state.pin_auth_blocked ≡ true) ⊎ (s.state.pin_consecutive_mismatches < 3)
      → Reach store s t
      → (t.guesses + t.state.pin_retries ≤ pin_retries_max) × (t.streak ≤ 3)
  wrong_guesses_bounded g k r b reach =
      let v =
        Reach-IsBounded
          (record {
            budget = omega arith;
            throttle = omega arith;
            counted = omega arith;
            blocks = b;
          })
          reach in
      (v.budget, v.throttle)
