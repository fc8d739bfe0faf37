-- ===== src/Slashing/History.antt =====
-- contracts/slashing/src/lib.rs: the bounded history against the full log of slashings.
use native.Mathlib.Nat.{zero-add, suc-add}
use stellar_soroban_contract.Prelude.{
  leb, if◌then◌else◌, Bool-cases, nat_eq, string_eq, pair_eq, length, drop, push_back,
  length-push_back, length-append, get_elem?-append, ℕ, zero, suc, ◌+◌, ◌-◌, ◌≤◌, ◌≡◌, refl, sym,
  ap, subst, ◌∙◌, inl, inr, some, List, [], ◌∷◌, ◌++◌, append_assoc, append-nil, arith,
}
use stellar_soroban_contract.Slashing.{max_history, SlashingRecord, copy_from, trim}

copy_from_lem :
    (before rest acc : List SlashingRecord)
    → copy_from (before ++ rest) (length before) (length rest) acc ≡ some (acc ++ rest)
unfolding copy_from
copy_from_lem before [] acc = rw (append-nil acc) refl
copy_from_lem before (r ∷ rest) acc =
    rw (get_elem?-append before r rest, copy_from)
      (subst
        (λ l.
          copy_from l (suc (length before)) (length rest) (push_back acc r)
          ≡ some (acc ++ r ∷ rest))
        (append_assoc before (r ∷ []) rest)
        (subst
          (λ n.
            copy_from ((before ++ r ∷ []) ++ rest) n (length rest) (push_back acc r)
            ≡ some (acc ++ r ∷ rest))
          (length-push_back before r ∙ omega arith)
          (copy_from_lem (before ++ r ∷ []) rest (push_back acc r)
            ∙ ap some (append_assoc acc (r ∷ []) rest))))

-- The loop drops the oldest record of a full history.
pub trim_lem :
    (h : List SlashingRecord) → trim h ≡ some (if leb max_history (length h) then drop 1 h else h)
unfolding trim
trim_lem [] = refl
trim_lem (r ∷ h) = elim (Bool-cases (leb max_history (length (r ∷ h)))) [
  | inl full ↦ rw (full, sub_suc (length h)) (copy_from_lem (r ∷ []) h [])
  | inr room ↦ rw room refl
]
  where
    sub_suc : (n : ℕ) → suc n - 1 ≡ n
    sub_suc n = omega arith

-- The latest records of a log, as many as are kept.
abbrev pub latest : List SlashingRecord → List SlashingRecord
latest log = drop (length log - max_history) log

drop-drop : (m n : ℕ) (xs : List SlashingRecord) → drop n (drop m xs) ≡ drop (m + n) xs
drop-drop zero n xs = rw (zero-add n) refl
drop-drop (suc m) zero [] = rw (suc-add m zero) refl
drop-drop (suc m) (suc n) [] = rw (suc-add m (suc n)) refl
drop-drop (suc m) n (x ∷ xs) = rw (suc-add m n) (drop-drop m n xs)

drop-append :
    (m : ℕ) (xs ys : List SlashingRecord) → m ≤ length xs → drop m (xs ++ ys) ≡ drop m xs ++ ys
drop-append zero xs ys h = refl
drop-append (suc m) [] ys h = absurd (omega arith)
drop-append (suc m) (x ∷ xs) ys h = drop-append m xs ys (omega arith)

pub length-drop : (m : ℕ) (xs : List SlashingRecord) → length (drop m xs) ≡ length xs - m
length-drop zero xs = omega arith
length-drop (suc m) [] = omega arith
length-drop (suc m) (x ∷ xs) = omega (arith, length-drop m xs)

-- Keeping the latest records before more are logged loses nothing that would be kept.
pub latest-append : (xs ys : List SlashingRecord) → latest (latest xs ++ ys) ≡ latest (xs ++ ys)
latest-append xs ys =
    let k = length xs - max_history in
    let front = drop-append k xs ys (omega arith) in
    let cut = length-drop k xs in
    let n = length (latest xs ++ ys) - max_history in
    let joined = length-append {0} xs ys in
    let joined' = length-append {0} (drop k xs) ys in
    ap (drop n) (sym front)
    ∙ drop-drop k n (xs ++ ys)
    ∙ ap (λ (j : ℕ). drop j (xs ++ ys)) (omega (arith, cut, joined, joined'))
