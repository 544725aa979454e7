-- ===== src/Storage/RunLength/Rows.antt =====
-- The rows that a list of runs stands for, and that encodeRLE's runs stand for its rows.
use mathlib.Core.List.{append_assoc, append-nil}
use test_db.Prelude.{
  ℕ, zero, suc, ◌+◌, ◌%◌, ◌^◌, ◌<◌, ◌≡◌, refl, ap, sym, ◌∙◌, Bool, true, false, not, ◌||◌, List, [],
  ◌∷◌, ◌++◌, length, length-append, All, ◌==◌, if◌then◌else◌, Bool-cases, inl, inr, arith,
}
use test_db.Storage.RunLength.{IntCell, RleRun, same_flag, push_row, collect_runs}

unfoldable pub copies : ℕ → IntCell → List IntCell
copies zero cell = []
copies (suc n) cell = cell ∷ copies n cell

unfoldable pub rows_of : List RleRun → List IntCell
rows_of [] = []
rows_of (r ∷ rs) = copies r.count (r.is_null, r.value) ++ rows_of rs

-- A null has no value.
unfoldable pub zero_nulls : List IntCell → List IntCell
zero_nulls [] = []
zero_nulls ((null, v) ∷ cells) = (null, if null then 0 else v) ∷ zero_nulls cells

abbrev pub IsWord : IntCell → Type 0
IsWord (null, v) = v < 2 ^ 64

-- The fields fit their places in the bytes.
abbrev pub FitsRun : RleRun → Type 0
FitsRun r = (r.value < 2 ^ 64) × (r.count < 2 ^ 32)

pub length-copies : (n : ℕ) (cell : IntCell) → length (copies n cell) ≡ n
unfolding copies
length-copies zero cell = refl
length-copies (suc n) cell = omega (arith, length-copies n cell)

copies-more :
    (n : ℕ) (cell : IntCell) → copies (suc n) cell ++ [] ≡ (copies n cell ++ []) ++ cell ∷ []
unfolding copies
copies-more zero cell = refl
copies-more (suc n) cell = ap (λ l. cell ∷ l) (copies-more n cell)

same_run :
    (a b : Bool) (u v : ℕ)
    → (not (u == v) || not (same_flag a b)) ≡ false
    → ◌≡◌ {A = IntCell} (a, u) (b, v)
same_run true true u v h = ap (λ n. (true, n)) (ground (arith, h))
same_run true false u v h = absurd (ground (arith, h))
same_run false true u v h = absurd (ground (arith, h))
same_run false false u v h = ap (λ n. (false, n)) (ground (arith, h))

rows_of-push_last :
    (null : Bool) (v : ℕ) (r : RleRun)
    → suc (length (copies r.count (r.is_null, r.value) ++ [])) < 2 ^ 32
    → rows_of (push_row null v (r ∷ []))
      ≡ (copies r.count (r.is_null, r.value) ++ []) ++ (null, v) ∷ []
unfolding rows_of push_row copies
rows_of-push_last null v r room =
    let cell : IntCell = (r.is_null, r.value) in
    elim (Bool-cases (not (r.value == v) || not (same_flag r.is_null null))) [
      | inl differs ↦ rw (differs) (sym (append_assoc (copies r.count cell) [] ((null, v) ∷ [])))
      | inr same ↦
          let counted : (r.count + 1) % 2 ^ 32 ≡ suc r.count =
            omega
              (arith, room, length-append (copies r.count cell) [], length-copies r.count cell) in
          rw (same, counted)
            (copies-more r.count cell
              ∙ ap (λ x. (copies r.count cell ++ []) ++ x ∷ [])
                  (same_run r.is_null null r.value v same))
    ]

rows_of-push :
    (null : Bool) (v : ℕ) (rs : List RleRun)
    → suc (length (rows_of rs)) < 2 ^ 32
    → rows_of (push_row null v rs) ≡ rows_of rs ++ (null, v) ∷ []
unfolding rows_of push_row copies
rows_of-push null v [] room = refl
rows_of-push null v (r ∷ []) room = rows_of-push_last null v r (omega (arith, room))
rows_of-push null v (r ∷ r' ∷ rs) room =
    ap (λ l. copies r.count (r.is_null, r.value) ++ l)
      (rows_of-push null v (r' ∷ rs) (
        omega
          (arith, room, length-append (copies r.count (r.is_null, r.value)) (rows_of (r' ∷ rs)))))
    ∙ sym (append_assoc (copies r.count (r.is_null, r.value)) (rows_of (r' ∷ rs)) ((null, v) ∷ []))

push_row-FitsRun :
    (null : Bool) (v : ℕ) (rs : List RleRun)
    → v < 2 ^ 64
    → All FitsRun rs
    → All FitsRun (push_row null v rs)
unfolding push_row
push_row-FitsRun null v [] small fit = ((small, omega arith), tt)
push_row-FitsRun null v (r ∷ []) small fit =
    elim (Bool-cases (not (r.value == v) || not (same_flag r.is_null null))) [
      | inl t ↦ rw (t) (fit.0, ((small, omega arith), tt))
      | inr f ↦ rw (f) ((fit.0.0, omega arith), tt)
    ]
push_row-FitsRun null v (r ∷ r' ∷ rs) small fit =
    (fit.0, push_row-FitsRun null v (r' ∷ rs) small fit.1)

pub rows_of-collect_runs :
    (cells : List IntCell) (rs : List RleRun)
    → length (rows_of rs) + length cells < 2 ^ 32
    → rows_of (collect_runs cells rs) ≡ rows_of rs ++ zero_nulls cells
unfolding collect_runs zero_nulls
rows_of-collect_runs [] rs room = sym (append-nil (rows_of rs))
rows_of-collect_runs ((null, v) ∷ cells) rs room =
    let v' = if null then 0 else v in
    let pushed = rows_of-push null v' rs (omega (arith, room)) in
    rows_of-collect_runs cells (push_row null v' rs)
      (omega (arith, room, ap (λ l. length l) pushed, length-append (rows_of rs) ((null, v') ∷ [])))
    ∙ ap (λ l. l ++ zero_nulls cells) pushed
    ∙ append_assoc (rows_of rs) ((null, v') ∷ []) (zero_nulls cells)

pub collect_runs-FitsRun :
    (cells : List IntCell) (rs : List RleRun)
    → All IsWord cells
    → All FitsRun rs
    → All FitsRun (collect_runs cells rs)
unfolding collect_runs
collect_runs-FitsRun [] rs words fit = fit
collect_runs-FitsRun ((true, v) ∷ cells) rs words fit =
    collect_runs-FitsRun cells (push_row true 0 rs) words.1
      (push_row-FitsRun true 0 rs (omega arith) fit)
collect_runs-FitsRun ((false, v) ∷ cells) rs words fit =
    collect_runs-FitsRun cells (push_row false v rs) words.1
      (push_row-FitsRun false v rs words.0 fit)
