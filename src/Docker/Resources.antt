-- ===== src/Docker/Resources.antt =====
-- The terminals in raw mode, the attachments and the responses of pulls that internal/docker/docker.go
-- acquires and gives back.
use frridge.Base.{
  ◌≡◌, refl, ap, ◌∙◌, ℕ, suc, ◌-◌, String, Bool, true, false, Option, none, some, [], ◌∷◌, arith,
  Option-cases, Bool-cases, inl, inr, if◌then◌else◌, Result,
}
use frridge.Base.Program.{Keeps, ◌>>=◌, within, sequence-Keeps, within-Keeps}
use frridge.Base.Program.Calls.{ask, invoke, perform}
use frridge.Docker.{
  Sdk, D, Call, History, DockerError, deferring, perform_as, make_raw, restore_terminal,
  exec_attach, close_attach, image_pull, close_pull,
}

pub data Resource : Type 0 where
  raw_mode attachment response : Resource

-- What a call does to the resources.
pub data Effect : Type 0 where
  acquire release : Resource → Effect
  plain : Effect

unfoldable pub effect_of : Call → Effect
effect_of make_raw = acquire raw_mode
effect_of restore_terminal = release raw_mode
effect_of (exec_attach _ _) = acquire attachment
effect_of close_attach = release attachment
effect_of (image_pull _) = acquire response
effect_of close_pull = release response
effect_of _ = plain

unfoldable pub same : Resource → Resource → Bool
same raw_mode raw_mode = true
same attachment attachment = true
same response response = true
same _ _ = false

unfoldable pub count_after : Resource → Effect → Option DockerError → ℕ → ℕ
count_after r (acquire q) none before = if same r q then suc before else before
count_after r (acquire q) (some _) before = before
count_after r (release q) _ before = if same r q then before - 1 else before
count_after r plain _ before = before

-- How many of a resource are held after the calls.
unfoldable pub held : Sdk → Resource → History → ℕ
held k r [] = 0
held k r (call ∷ past) = count_after r (effect_of call) (k.performed past call) (held k r past)

module _ (k : Sdk) (r : Resource) where
  abbrev pub Holds : ℕ → History → Type 0
  Holds n past = held k r past ≡ n

  -- A call that leaves the resource alone.
  abbrev pub IsNeutral : Call → Type 0
  IsNeutral call = (past : History) → held k r (call ∷ past) ≡ held k r past

  pub plain-IsNeutral : (call : Call) → effect_of call ≡ plain → IsNeutral call
  unfolding held count_after
  plain-IsNeutral call e past = rw e refl

  acquire-IsNeutral :
      (call : Call) (q : Resource) → effect_of call ≡ acquire q → same r q ≡ false → IsNeutral call
  unfolding held count_after
  acquire-IsNeutral call q e other past = elim (Option-cases (k.performed past call)) [
    | inl none_ ↦ rw (e, none_, other) refl
    | inr (x, some_) ↦ rw (e, some_) refl
  ]

  release-IsNeutral :
      (call : Call) (q : Resource) → effect_of call ≡ release q → same r q ≡ false → IsNeutral call
  unfolding held count_after
  release-IsNeutral call q e other past = rw (e, other) refl

  held_acquired :
      (call : Call) (q : Resource) (past : History)
      → effect_of call ≡ acquire q
      → same r q ≡ true
      → k.performed past call ≡ none
      → held k r (call ∷ past) ≡ suc (held k r past)
  unfolding held count_after
  held_acquired call q past e one done = rw (e, done, one) refl

  held_refused :
      (call : Call) (q : Resource) (past : History) (x : DockerError)
      → effect_of call ≡ acquire q
      → k.performed past call ≡ some x
      → held k r (call ∷ past) ≡ held k r past
  unfolding held count_after
  held_refused call q past x e failed = rw (e, failed) refl

  held_released :
      (call : Call) (q : Resource) (past : History)
      → effect_of call ≡ release q
      → same r q ≡ true
      → held k r (call ∷ past) ≡ held k r past - 1
  unfolding held count_after
  held_released call q past e one = rw (e, one) refl

  pub ask-Keeps :
      {A : Type 0} (n : ℕ) (call : Call) (answer : History → A)
      → IsNeutral call
      → Keeps (Holds n) (ask {E = DockerError} call answer)
  unfolding ask
  ask-Keeps n call answer neutral past p = neutral past ∙ p

  pub invoke-Keeps :
      {A : Type 0} (n : ℕ) (call : Call) (answer : History → Result DockerError A)
      → IsNeutral call
      → Keeps (Holds n) (invoke call answer)
  unfolding invoke
  invoke-Keeps n call answer neutral past p = neutral past ∙ p

  pub perform-Keeps :
      (n : ℕ) (answer : History → Call → Option DockerError) (call : Call)
      → IsNeutral call
      → Keeps (Holds n) (perform answer call)
  unfolding perform
  perform-Keeps n answer call neutral past p = neutral past ∙ p

  pub perform_as-Keeps :
      (n : ℕ) (what : String) (call : Call)
      → IsNeutral call
      → Keeps (Holds n) (perform_as k what call)
  unfolding perform_as
  perform_as-Keeps n what call neutral = within-Keeps (Holds n) _ _ (perform-Keeps n _ call neutral)

  pub deferring-Keeps :
      {A : Type 0} (n : ℕ) (call : Call) (body : D A)
      → IsNeutral call
      → Keeps (Holds n) body
      → Keeps (Holds n) (deferring call body)
  unfolding deferring
  deferring-Keeps n call body neutral keeps past p = neutral (body past).1 ∙ keeps past p

  module _ (q : Resource) (what : String) (get give : Call) {A : Type 0} (body : D A) where
    other-Keeps :
        effect_of get ≡ acquire q
        → effect_of give ≡ release q
        → same r q ≡ false
        → (n : ℕ) → Keeps (Holds n) body
        → Keeps (Holds n) (perform_as k what get >>= λ _. deferring give body)
    other-Keeps gets gives other n keeps =
        sequence-Keeps (Holds n) (perform_as k what get) (λ _. deferring give body)
          (perform_as-Keeps n what get (acquire-IsNeutral get q gets other))
          (λ _. deferring-Keeps n give body (release-IsNeutral give q gives other) keeps)

    own-Keeps :
        effect_of get ≡ acquire q
        → effect_of give ≡ release q
        → same r q ≡ true
        → (n : ℕ) → Keeps (Holds (suc n)) body
        → Keeps (Holds n) (perform_as k what get >>= λ _. deferring give body)
    unfolding ◌>>=◌ perform_as within perform deferring
    own-Keeps gets gives one n keeps past p = elim (Option-cases (k.performed past get)) [
      | inl e ↦ rw e (
          let more = keeps (get ∷ past) (held_acquired get q past gets one e ∙ ap suc p) in
          held_released give q (body (get ∷ past)).1 gives one ∙ omega (arith, more))
      | inr (x, e) ↦ rw e (held_refused get q past x gets e ∙ p)
    ]

    -- A call that acquires, and a body with the call that releases at its end.
    pub bracket-Keeps :
        effect_of get ≡ acquire q
        → effect_of give ≡ release q
        → ((m : ℕ) → Keeps (Holds m) body)
        → (n : ℕ) → Keeps (Holds n) (perform_as k what get >>= λ _. deferring give body)
    bracket-Keeps gets gives keeps n = elim (Bool-cases (same r q)) [
      | inl one ↦ own-Keeps gets gives one n (keeps (suc n))
      | inr other ↦ other-Keeps gets gives other n (keeps n)
    ]
