-- ===== src/Completion/Reading.antt =====
-- What is left to read is no longer than the text.
use sqlwarden.Statements.Kept.{length-drop_units}
use sqlwarden.Completion.{rest_after_quoted, rest_after, span_while, Text, index_of_text}
use sqlwarden.Common.{
  ℕ, if_both, Option, suc, length, some, ◌≤◌, Bool, ◌∷◌, Option-cases, drop, arith, none, false, [],
  ◌==◌, nat_eq, inl, ◌&&◌, not, inr, option_beq, ◌+◌, get_elem?, true,
}

-- At most `n` units are left, if any text is.
abbrev pub IsWithin : ℕ → Option Text → Type 0
IsWithin n none = Unit
IsWithin n (some rest) = length rest ≤ n

pub span_while-within : (p : ℕ → Bool) (cs : Text) → length (span_while p cs).1 ≤ length cs
unfolding span_while
span_while-within p [] = omega arith
span_while-within p (c ∷ cs) = ground (arith, span_while-within p cs)

pub drop-within : (n : ℕ) (cs : Text) → length (drop n cs) ≤ length cs
drop-within n cs = omega (arith, length-drop_units cs n)

pub rest_after-IsWithin : (p cs : Text) → IsWithin (length cs) (rest_after p cs)
unfolding rest_after
rest_after-IsWithin p cs = elim (Option-cases (index_of_text cs p)) [
  | inl e ↦ rw (rest_after, e) tt
  | inr (i, e) ↦ rw (rest_after, e) (drop-within (i + length p) cs)
]

pub IsWithin-grow : (n m : ℕ) (o : Option Text) → IsWithin n o → n ≤ m → IsWithin m o
IsWithin-grow n m none h le = tt
IsWithin-grow n m (some rest) h le = omega (arith, h, le)

pub rest_after-drop-IsWithin :
    (p : Text) (k : ℕ) (cs : Text) → IsWithin (length cs) (rest_after p (drop k cs))
rest_after-drop-IsWithin p k cs =
    IsWithin-grow (length (drop k cs)) (length cs) (rest_after p (drop k cs))
      (rest_after-IsWithin p (drop k cs)) (drop-within k cs)

pub rest_after_quoted-IsWithin :
    (closing : ℕ) (doubles passing : Bool) (cs : Text)
    → IsWithin (length cs) (rest_after_quoted closing doubles passing cs)
unfolding rest_after_quoted
rest_after_quoted-IsWithin closing doubles passing [] = tt
rest_after_quoted-IsWithin closing doubles true (c ∷ cs) =
    IsWithin-grow (length cs) (suc (length cs)) (rest_after_quoted closing doubles false cs)
      (rest_after_quoted-IsWithin closing doubles false cs) (omega arith)
rest_after_quoted-IsWithin closing doubles false (c ∷ cs) =
    let rest = rest_after_quoted closing doubles (c == closing) cs in
    if_both (IsWithin (suc (length cs)))
      (c == closing && not (doubles && option_beq (get_elem? cs 0) (some closing))) (omega arith)
      (IsWithin-grow (length cs) (suc (length cs)) rest
        (rest_after_quoted-IsWithin closing doubles (c == closing) cs) (omega arith))
