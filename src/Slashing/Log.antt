-- ===== src/Slashing/Log.antt =====
-- contracts/slashing/src/lib.rs: what any transactions leave of the log of slashings.
use stellar_soroban_contract.Prelude.{
  leb, if◌then◌else◌, Bool-cases, Option-cases, ◌==◌, nat_eq, string_eq, pair_eq, beq→eq, length,
  drop, push_back, length-push_back, length-append, ℤ, u32, insert, lookup_or-insert, ℕ, ◌+◌, ◌-◌,
  ◌≤◌, ◌<◌, String, ◌≡◌, refl, sym, ap, subst, ◌∙◌, ◌≢◌, inl, inr, List, [], ◌∷◌, ◌++◌,
  append_assoc, append-nil, arith,
}
use stellar_soroban_contract.Host.{
  Address, Symbol, Env, ok, kept, succeeds, Result-cases, kept-err, kept-ok,
}
use stellar_soroban_contract.Slashing.{
  max_history, SlashingRecord, State, violation_count_of, history_of, initialize,
  configure_penalty_parameters, slash_funds, add_slashable_role, remove_slashable_role, pause,
  unpause, Op, initializes, configures, slashes, adds_role, removes_role, pauses, unpauses, step,
  run,
}
use stellar_soroban_contract.Slashing.History.{trim_lem, latest, length-drop, latest-append}

-- The records that one transaction adds to the log of a target in a role: one for a `slash_funds`
-- on them that succeeds.
abbrev pub logged : Address × Symbol → Env → Op → State → List SlashingRecord
logged k env (slashes t r why x) s =
    if succeeds (slash_funds env t r why x s)
    then (if k == (t, r)
        then (let one : SlashingRecord = record {
          target = t;
          role = r;
          reason = why;
          amount = x;
          timestamp = env.timestamp;
        } in
            one ∷ [])
        else [])
    else []
logged k env _ s = []

-- The log that a list of transactions adds.
unfoldable pub log_of : Address × Symbol → List (Env × Op) → State → List SlashingRecord
log_of k [] s = []
log_of k ((env, op) ∷ ops) s = logged k env op s ++ log_of k ops (step env op s)

-- The storage holds a history that fits for every target and role.
abbrev pub IsBounded : State → Type 0
IsBounded s = (k : Address × Symbol) → length (history_of k s) ≤ max_history

latest_self : (l : List SlashingRecord) → length l ≤ max_history → latest l ≡ l
latest_self l h = rw (gone (length l) h) refl
  where
    gone : (n : ℕ) → n ≤ max_history → n - max_history ≡ 0
    gone n h = omega arith

latest_fits : (l : List SlashingRecord) → length (latest l) ≤ max_history
latest_fits l = omega (arith, length-drop (length l - max_history) l)

latest-push_back :
    (h : List SlashingRecord) (r : SlashingRecord)
    → length h ≤ max_history
    → push_back (if leb max_history (length h) then drop 1 h else h) r ≡ latest (push_back h r)
latest-push_back [] r fits = refl
latest-push_back (x ∷ h) r fits =
    let longer = length-push_back h r in
    let all = x ∷ push_back h r in
    elim (Bool-cases (leb max_history (length (x ∷ h)))) [
      | inl full ↦
          let at_limit : max_history ≤ length (x ∷ h) = ground arith in
          let one : 1 ≡ length all - max_history = omega (arith, at_limit, fits, longer) in
          rw full (ap (λ (j : ℕ). drop j all) one)
      | inr room ↦
          let below : length (x ∷ h) < max_history = ground arith in
          rw room (sym (latest_self all (omega (arith, below, longer))))
    ]

abbrev pub record_of : Env → Address → Symbol → String → ℤ → SlashingRecord
record_of env t r why x = record {
  target = t;
  role = r;
  reason = why;
  amount = x;
  timestamp = env.timestamp;
}

-- The history with the new record, the oldest dropped if it was full.
abbrev pub pushed : Env → Address → Symbol → String → ℤ → State → List SlashingRecord
pushed env t r why x s =
    let h = history_of (t, r) s in
    push_back (if leb max_history (length h) then drop 1 h else h) (record_of env t r why x)

-- What a `slash_funds` that succeeds has written.
pub record Slashed (env : Env) (t : Address) (r : Symbol) (why : String) (x : ℤ) (s u : State)
    : Type 0 where
  pub written : u.history ≡ insert (t, r) (pushed env t r why x s) s.history
  pub counted :
      u.violation_count ≡ insert (t, r) (u32 (violation_count_of (t, r) s + 1)) s.violation_count

pub slash-Slashed :
    (env : Env) (t : Address) (r : Symbol) (why : String) (x : ℤ) (s u : State) {n : Unit {0}}
    → slash_funds env t r why x s ≡ ok (n, u)
    → Slashed env t r why x s u
unfolding slash_funds
slash-Slashed env t r why x s u h = elim (Option-cases s.governance) [
  | inl e ↦ absurd (ground arith)
  | inr (g, e) ↦
      let cut = trim_lem (history_of (t, r) s) in
      record { written = ground (arith, cut); counted = ground (arith, cut) }
]

-- A slashing appends its record to the history of its target and role.
slash-latest :
    (k : Address × Symbol) (env : Env) (t : Address) (r : Symbol) (why : String) (x : ℤ) (s : State)
    → IsBounded s
    → history_of k (kept (slash_funds env t r why x) s)
      ≡ latest (history_of k s ++ logged k env (slashes t r why x) s)
slash-latest k env t r why x s b = elim (Result-cases (slash_funds env t r why x s)) [
  | inl (e, failed) ↦
      rw (kept-err (slash_funds env t r why x) s failed, failed)
        (rw (append-nil (history_of k s)) (sym (latest_self (history_of k s) (b k))))
  | inr ((n, u), done) ↦
      let w = slash-Slashed env t r why x s u done in
      let found = lookup_or-insert [] k (t, r) (pushed env t r why x s) s.history in
      elim (Bool-cases (k == (t, r))) [
        | inl same ↦
            let key : k ≡ (t, r) = beq→eq k (t, r) same in
            rw (kept-ok (slash_funds env t r why x) s done, done, same, w.written, found, same)
              (rw key (latest-push_back (history_of (t, r) s) (record_of env t r why x) (b (t, r))))
        | inr other ↦
            rw (kept-ok (slash_funds env t r why x) s done, done, other, w.written, found, other)
              (rw (append-nil (history_of k s)) (sym (latest_self (history_of k s) (b k))))
      ]
]

-- The handlers other than `slash_funds` leave the histories and the counts alone.
step-others :
    (env : Env) (op : Op) (s : State)
    → ((t : Address) (r : Symbol) (why : String) (x : ℤ) → op ≢ slashes t r why x)
    → ((step env op s).history ≡ s.history) × ((step env op s).violation_count ≡ s.violation_count)
unfolding step initialize configure_penalty_parameters add_slashable_role remove_slashable_role
    pause unpause
step-others env (initializes a g r) s h = (ground arith, ground arith)
step-others env (configures r p) s h = (ground arith, ground arith)
step-others env (slashes t r why x) s h = absurd (h t r why x refl)
step-others env (adds_role r) s h = (ground arith, ground arith)
step-others env (removes_role r) s h = (ground arith, ground arith)
step-others env pauses s h = (ground arith, ground arith)
step-others env unpauses s h = (ground arith, ground arith)

step-latest :
    (k : Address × Symbol) (env : Env) (op : Op) (s : State)
    → IsBounded s
    → history_of k (step env op s) ≡ latest (history_of k s ++ logged k env op s)
step-latest k env (slashes t r why x) s b = unfold step in slash-latest k env t r why x s b
step-latest k env op s b =
    rw ((step-others env op s (λ t r why x e. cc)).0, append-nil (history_of k s))
      (sym (latest_self (history_of k s) (b k)))

step-IsBounded : (env : Env) (op : Op) (s : State) → IsBounded s → IsBounded (step env op s)
step-IsBounded env op s b k =
    subst (λ (l : List SlashingRecord). length l ≤ max_history) (sym (step-latest k env op s b))
      (latest_fits (history_of k s ++ logged k env op s))

-- From histories of at most fifty records, after any transactions, the history of a target in a
-- role is exactly the latest fifty records of the full log: of what was stored before, followed by
-- one record for each `slash_funds` on them that succeeded, in order.
pub run-latest :
    (k : Address × Symbol) (ops : List (Env × Op)) (s : State)
    → IsBounded s
    → history_of k (run ops s) ≡ latest (history_of k s ++ log_of k ops s)
unfolding run log_of
run-latest k [] s b = rw (append-nil (history_of k s)) (sym (latest_self (history_of k s) (b k)))
run-latest k ((env, op) ∷ ops) s b =
    run-latest k ops (step env op s) (step-IsBounded env op s b)
    ∙ ap (λ (l : List SlashingRecord). latest (l ++ log_of k ops (step env op s)))
        (step-latest k env op s b)
    ∙ latest-append (history_of k s ++ logged k env op s) (log_of k ops (step env op s))
    ∙ ap latest (append_assoc (history_of k s) _ _)

slash-count :
    (k : Address × Symbol) (env : Env) (t : Address) (r : Symbol) (why : String) (x : ℤ) (s : State)
    → violation_count_of k s < 0x1_0000_0000
    → violation_count_of k (kept (slash_funds env t r why x) s)
      ≡ u32 (violation_count_of k s + length (logged k env (slashes t r why x) s))
slash-count k env t r why x s small = elim (Result-cases (slash_funds env t r why x s)) [
  | inl (e, failed) ↦ rw (kept-err (slash_funds env t r why x) s failed, failed) (omega arith)
  | inr ((n, u), done) ↦
      let w = slash-Slashed env t r why x s u done in
      let found =
        lookup_or-insert 0 k (t, r) (u32 (violation_count_of (t, r) s + 1)) s.violation_count in
      elim (Bool-cases (k == (t, r))) [
        | inl same ↦
            let key : k ≡ (t, r) = beq→eq k (t, r) same in
            rw (kept-ok (slash_funds env t r why x) s done, done, same, w.counted, found, same)
              (rw key refl)
        | inr other ↦
            rw (kept-ok (slash_funds env t r why x) s done, done, other, w.counted, found, other)
              (omega arith)
      ]
]

step-count :
    (k : Address × Symbol) (env : Env) (op : Op) (s : State)
    → violation_count_of k s < 0x1_0000_0000
    → violation_count_of k (step env op s)
      ≡ u32 (violation_count_of k s + length (logged k env op s))
step-count k env (slashes t r why x) s small = unfold step in slash-count k env t r why x s small
step-count k env op s small = rw (step-others env op s (λ t r why x e. cc)).1 (omega arith)

-- From a count that is a `u32`, after any transactions, the violation count of a target in a role
-- is the count of before and the number of the `slash_funds` on them that succeeded, in `u32`
-- arithmetic.
pub run-count :
    (k : Address × Symbol) (ops : List (Env × Op)) (s : State)
    → violation_count_of k s < 0x1_0000_0000
    → violation_count_of k (run ops s) ≡ u32 (violation_count_of k s + length (log_of k ops s))
unfolding run log_of
run-count k [] s small = omega arith
run-count k ((env, op) ∷ ops) s small =
    let one = step-count k env op s small in
    let rest = run-count k ops (step env op s) (omega (arith, one)) in
    omega (arith, one, rest, length-append {0} (logged k env op s) (log_of k ops (step env op s)))
