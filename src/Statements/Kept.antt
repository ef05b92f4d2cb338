-- ===== src/Statements/Kept.antt =====
-- Splitting a text loses and doubles nothing but white space.
use sqlwarden.Common.{
  if◌then◌else◌, zero, suc, [], ◌∷◌, ℕ, filter, ◌≡◌, drop, List, not, ◌+◌, refl, ◌≤◌, ◌++◌, arith,
  take, get_elem?, some, Bool-cases, false, Bool, ◌-◌, length, ◌∙◌, ap, Option, inl, true, ◌==◌,
  sym, inr, append-nil, subst, nat_eq,
}
use sqlwarden.Statements.{
  Text, is_space, find_semis, lex_step, LexState, normal, sq, dq, lc, bc, count_spaces, skip_spaces,
  slice, trim_start, trim_end, trim, cut_spans, sql_statement_spans, span_text, semicolon,
}

-- What a text has beside white space.
abbrev pub ink : Text → Text
ink text = filter (λ u. not (is_space u)) text

abbrev pub ink_of_spans : Text → List (ℕ × ℕ) → Text
ink_of_spans text [] = []
ink_of_spans text (span ∷ spans) = ink (span_text text span) ++ ink_of_spans text spans

-- The offsets rise, from `i` on, and each is that of a semicolon of the text.
abbrev pub AreSemis : Text → ℕ → List ℕ → Type 0
AreSemis text i [] = Unit
AreSemis text i (semi ∷ semis) =
    (i ≤ semi) × (get_elem? text semi ≡ some semicolon) × AreSemis text (suc semi) semis

ink-trim_start : (text : Text) → ink (trim_start text) ≡ ink text
unfolding trim_start
ink-trim_start [] = refl
ink-trim_start (c ∷ cs) = ground (arith, ink-trim_start cs)

empty_of_length : (text : Text) → length text ≡ 0 → text ≡ []
empty_of_length [] h = refl
empty_of_length (c ∷ cs) h = ground arith

ink-trim_end : (text : Text) → ink (trim_end text) ≡ ink text
unfolding trim_end
ink-trim_end [] = refl
ink-trim_end (c ∷ cs) = ground (arith, ink-trim_end cs, empty_of_length (trim_end cs))

ink-trim : (text : Text) → ink (trim text) ≡ ink text
unfolding trim
ink-trim text = ink-trim_end (trim_start text) ∙ ink-trim_start text

ink-take-drop : (text : Text) (n : ℕ) → ink (take n text) ++ ink (drop n text) ≡ ink text
ink-take-drop text zero = refl
ink-take-drop [] (suc n) = refl
ink-take-drop (c ∷ cs) (suc n) = ground (arith, ink-take-drop cs n)

ink-count_spaces : (text : Text) → ink (drop (count_spaces text) text) ≡ ink text
unfolding count_spaces
ink-count_spaces [] = refl
ink-count_spaces (c ∷ cs) = ground (arith, ink-count_spaces cs)

pub drop_empty : (n : ℕ) → drop {A = ℕ} n [] ≡ []
drop_empty zero = refl
drop_empty (suc n) = refl

pub drop_add : (text : Text) (a b : ℕ) → drop (a + b) text ≡ drop b (drop a text)
drop_add text zero b = ap (λ n. drop n text) (omega arith)
drop_add [] (suc a) b = drop_empty (suc a + b) ∙ sym (drop_empty b)
drop_add (c ∷ cs) (suc a) b =
    let n : suc a + b ≡ suc (a + b) = omega arith in ap (λ k. drop k (c ∷ cs)) n ∙ drop_add cs a b

take_all : (text : Text) (n : ℕ) → length text ≤ n → take n text ≡ text
take_all [] zero h = refl
take_all [] (suc n) h = refl
take_all (c ∷ cs) zero h = ground arith
take_all (c ∷ cs) (suc n) h = ap (λ l. c ∷ l) (take_all cs n (omega arith))

pub length-drop_units : (text : Text) (n : ℕ) → length (drop n text) ≡ length text - n
length-drop_units text zero = ground arith
length-drop_units [] (suc n) = ground arith
length-drop_units (c ∷ cs) (suc n) = ground (arith, length-drop_units cs n)

get_elem?-drop : (text : Text) (a k : ℕ) → get_elem? (drop a text) k ≡ get_elem? text (a + k)
get_elem?-drop text zero k = ap (get_elem? text) (omega arith)
get_elem?-drop [] (suc a) k = refl
get_elem?-drop (c ∷ cs) (suc a) k =
    let n : suc a + k ≡ suc (a + k) = omega arith in
    get_elem?-drop cs a k ∙ sym (ap (get_elem? (c ∷ cs)) n)

count_spaces-before :
    (text : Text) (k u : ℕ) → get_elem? text k ≡ some u → is_space u ≡ false → count_spaces text ≤ k
unfolding count_spaces
count_spaces-before [] k u e h = omega arith
count_spaces-before (c ∷ cs) zero u e h = ground arith
count_spaces-before (c ∷ cs) (suc k) u e h = ground (arith, count_spaces-before cs k u)

-- The spaces after a semicolon end before the next one.
AreSemis-skip_spaces :
    (text : Text) (i : ℕ) (semis : List ℕ)
    → AreSemis text i semis
    → AreSemis text (skip_spaces text i) semis
unfolding skip_spaces is_space
AreSemis-skip_spaces text i [] h = tt
AreSemis-skip_spaces text i (semi ∷ semis) (l, e, h) =
    let k : i + (semi - i) ≡ semi = omega arith in
    let e' = get_elem?-drop text i (semi - i) ∙ ap (get_elem? text) k ∙ e in
    let below =
      count_spaces-before (drop i text) (semi - i) semicolon e' (unfold is_space in refl) in
    (omega arith, e, h)

slice-rest :
    (text : Text) (start stop : ℕ)
    → start ≤ stop
    → ink (slice text start stop) ++ ink (drop stop text) ≡ ink (drop start text)
unfolding slice
slice-rest text start stop h =
    let n : start + (stop - start) ≡ stop = omega arith in
    let same : drop stop text ≡ drop (stop - start) (drop start text) =
      sym (ap (λ k. drop k text) n) ∙ drop_add text start (stop - start) in
    ap (λ l. ink (take (stop - start) (drop start text)) ++ ink l) same
    ∙ ink-take-drop (drop start text) (stop - start)

ink-skip_spaces : (text : Text) (i : ℕ) → ink (drop (skip_spaces text i) text) ≡ ink (drop i text)
unfolding skip_spaces
ink-skip_spaces text i =
    ap ink (drop_add text i (count_spaces (drop i text))) ∙ ink-count_spaces (drop i text)

cut_spans-ink :
    (text : Text) (start : ℕ) (semis : List ℕ)
    → AreSemis text start semis
    → ink_of_spans text (cut_spans text start semis) ≡ ink (drop start text)
unfolding cut_spans span_text slice
cut_spans-ink text start [] h = elim (Bool-cases (length (trim (drop start text)) == 0)) [
  | inl z ↦
      rw (cut_spans, z)
        (sym (ap ink (empty_of_length (trim (drop start text)) (ground arith)))
          ∙ ink-trim (drop start text))
  | inr z ↦
      rw (cut_spans, z)
        (append-nil (ink (take (length text - start) (drop start text)))
          ∙ ap ink (
              take_all (drop start text) (length text - start)
                (omega (arith, length-drop_units text start))))
]
cut_spans-ink text start (semi ∷ semis) (l, e, h) =
    let n : semi + 1 ≡ suc semi = omega arith in
    let h' = subst (λ k. AreSemis text k semis) (sym n) h in
    let rest =
      cut_spans-ink text (skip_spaces text (semi + 1)) semis
        (AreSemis-skip_spaces text (semi + 1) semis h') in
    ap (λ t. ink (slice text start (semi + 1)) ++ t) (rest ∙ ink-skip_spaces text (semi + 1))
    ∙ slice-rest text start (semi + 1) (omega arith)

lex_step-semi :
    (state : LexState) (c : ℕ) (n : Option ℕ) → (lex_step state c n).2 ≡ true → c ≡ semicolon
unfolding lex_step
lex_step-semi normal c n h = ground arith
lex_step-semi sq c n h = ground arith
lex_step-semi dq c n h = ground arith
lex_step-semi lc c n h = ground arith
lex_step-semi bc c n h = ground arith

AreSemis-weaken :
    (text : Text) (i : ℕ) (semis : List ℕ) → AreSemis text (suc i) semis → AreSemis text i semis
AreSemis-weaken text i [] h = tt
AreSemis-weaken text i (semi ∷ semis) (l, e, h) = (omega arith, e, h)

-- The text from the offset `i` on.
abbrev IsTail : Text → ℕ → Text → Type 0
IsTail text i cs = (k : ℕ) → get_elem? cs k ≡ get_elem? text (i + k)

IsTail-suc : (text : Text) (i c : ℕ) (cs : Text) → IsTail text i (c ∷ cs) → IsTail text (suc i) cs
IsTail-suc text i c cs h k =
    let n : i + suc k ≡ suc i + k = omega arith in h (suc k) ∙ ap (get_elem? text) n

put-AreSemis :
    (text : Text) (i : ℕ) (b : Bool) (rest : List ℕ)
    → (b ≡ true → get_elem? text i ≡ some semicolon)
    → AreSemis text (suc i) rest
    → AreSemis text i (if b then i ∷ rest else rest)
put-AreSemis text i true rest e h = (omega arith, e refl, h)
put-AreSemis text i false rest e h = AreSemis-weaken text i rest h

find_semis-AreSemis :
    (text : Text) (state : LexState) (passing : Bool) (i : ℕ) (cs : Text)
    → IsTail text i cs
    → AreSemis text i (find_semis state passing i cs)
unfolding find_semis
find_semis-AreSemis text state passing i [] h = tt
find_semis-AreSemis text state true i (c ∷ cs) h =
    AreSemis-weaken text i (find_semis state false (suc i) cs)
      (find_semis-AreSemis text state false (suc i) cs (IsTail-suc text i c cs h))
find_semis-AreSemis text state false i (c ∷ cs) h =
    let out = lex_step state c (get_elem? cs 0) in
    let rest = find_semis-AreSemis text out.0 out.1 (suc i) cs (IsTail-suc text i c cs h) in
    put-AreSemis text i out.2 (find_semis out.0 out.1 (suc i) cs)
      (λ b.
        ap (get_elem? text) (omega arith)
        ∙ sym (h 0)
        ∙ ap some (lex_step-semi state c (get_elem? cs 0) b))
      rest

spans-ink :
    (text : Text) (semis : List ℕ)
    → AreSemis text 0 semis
    → ink_of_spans text
        (elim semis [ [] ↦ (0, length text) ∷ [] | s ∷ ss ↦ cut_spans text 0 (s ∷ ss) ])
      ≡ ink text
unfolding span_text slice
spans-ink text [] h =
    append-nil (ink (take (length text - 0) text))
    ∙ ap ink (take_all text (length text - 0) (omega arith))
spans-ink text (s ∷ ss) h = cut_spans-ink text 0 (s ∷ ss) h

-- The code units of the text that are not white space, in their order, are those of the statement spans
-- one after the other: none is lost, doubled or moved.
pub sql_statement_spans-ink :
    (text : Text) → ink_of_spans text (sql_statement_spans text) ≡ ink text
unfolding sql_statement_spans
sql_statement_spans-ink text =
    spans-ink text (find_semis normal false 0 text)
      (find_semis-AreSemis text normal false 0 text (λ k. ap (get_elem? text) (omega arith)))
