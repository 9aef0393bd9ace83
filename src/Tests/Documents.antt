-- ===== src/Tests/Documents.antt =====
-- JSON documents as binary trees, written with their operators first: an instance of the parameter Json.
use anolis.Base.{
  ℕ, zero, suc, ◌+◌, ◌-◌, ◌<◌, ◌≡◌, ◌≢◌, ◌⊎◌, refl, sym, ap, ◌∙◌, false, Option, none, some, List,
  [], ◌∷◌, ◌++◌, if◌then◌else◌, eqb, take, length, Text, text_eq, text_key, find, ℤ, pos, negsuc,
  All, arith, inl, inr, Bool-cases, append_nil, append_assoc, length-append, take-append, ltb,
}
use anolis.Journal.{Json}

pub data Tree : Type 0 where
  atom : ℕ → Tree
  pair : Tree → Tree → Tree

abbrev number_of : Tree → ℕ
number_of (atom n) = n
number_of (pair a b) = 0

abbrev left : Tree → Tree
left (atom n) = atom n
left (pair a b) = a

abbrev right : Tree → Tree
right (atom n) = atom n
right (pair a b) = b

abbrev tag : Tree → ℕ
tag d = number_of (left d)

abbrev letters : Text → Tree
letters [] = atom 0
letters (c ∷ s) = pair (atom c) (letters s)

abbrev letters_of : Tree → Text
letters_of (atom n) = []
letters_of (pair a b) = number_of a ∷ letters_of b

abbrev listed : List Tree → Tree
listed [] = atom 0
listed (d ∷ ds) = pair d (listed ds)

abbrev listed_of : Tree → List Tree
listed_of (atom n) = []
listed_of (pair a b) = a ∷ listed_of b

abbrev members : List (Text × Tree) → Tree
members [] = atom 0
members ((k, d) ∷ ms) = pair (pair (letters k) d) (members ms)

abbrev member_of : Text → Tree → Option Tree
member_of k (atom n) = none
member_of k (pair a b) = if text_eq (letters_of (left a)) k then some (right a) else member_of k b

abbrev number : ℤ → Tree
number (pos n) = pair (atom 0) (atom n)
number (negsuc n) = pair (atom 1) (atom n)

abbrev number_read : Tree → ℤ
number_read d = if eqb (tag d) 0 then pos (number_of (right d)) else negsuc (number_of (right d))

abbrev dump : Tree → Text
dump (atom n) = suc (n + 10) ∷ []
dump (pair a b) = 0 ∷ (dump a ++ dump b)

-- The operands on a stack, from the end of the text.
abbrev put : ℕ → Option (List Tree) → Option (List Tree)
put c none = none
put zero (some []) = none
put zero (some (a ∷ [])) = none
put zero (some (a ∷ b ∷ s)) = some (pair a b ∷ s)
put (suc c) (some s) = some (atom (c - 10) ∷ s)

abbrev stacked : Text → Option (List Tree)
stacked [] = some []
stacked (c ∷ s) = put c (stacked s)

abbrev only : Option (List Tree) → Option Tree
only none = none
only (some []) = none
only (some (d ∷ [])) = some d
only (some (d ∷ e ∷ s)) = none

abbrev add : Tree → Option (List Tree) → Option (List Tree)
add d none = none
add d (some s) = some (d ∷ s)

put-add : (a b : Tree) (o : Option (List Tree)) → put 0 (add a (add b o)) ≡ add (pair a b) o
put-add a b none = refl
put-add a b (some s) = refl

put-atom : (n : ℕ) (o : Option (List Tree)) → put (suc (n + 10)) o ≡ add (atom n) o
put-atom n none = refl
put-atom n (some s) = ap (λ k. some (atom k ∷ s)) (back n)
  where
    back : (n : ℕ) → n + 10 - 10 ≡ n
    back n = omega arith

stacked-dump : (d : Tree) (t : Text) → stacked (dump d ++ t) ≡ add d (stacked t)
stacked-dump (atom n) t = put-atom n (stacked t)
stacked-dump (pair a b) t =
    ap (λ s. put 0 (stacked s)) (append_assoc (dump a) (dump b) t)
    ∙ ap (put 0) (stacked-dump a (dump b ++ t) ∙ ap (add a) (stacked-dump b t))
    ∙ put-add a b (stacked t)

abbrev read_tree : Text → Option Tree
read_tree s = only (stacked s)

pub read_tree-dump : (d : Tree) → read_tree (dump d) ≡ some d
read_tree-dump d = ap read_tree (sym (append_nil (dump d))) ∙ ap only (stacked-dump d [])

take-more : (n : ℕ) (xs ys : Text) (m : ℕ) → n ≡ length xs + m → take n (xs ++ ys) ≡ xs ++ take m ys
take-more n [] ys m e = ap (λ i. take i ys) (omega (arith, e))
take-more zero (x ∷ xs) ys m e = absurd (omega (arith, e))
take-more (suc n) (x ∷ xs) ys m e = ap (λ r. x ∷ r) (take-more n xs ys m (omega (arith, e)))

-- The stack of a part of a tree's text.
abbrev IsUnread : Option (List Tree) → Type 0
IsUnread o = (o ≡ none) ⊎ (o ≡ some [])

put-unread : (o : Option (List Tree)) → IsUnread o → put 0 o ≡ none
put-unread o (inl e) = ap (put 0) e
put-unread o (inr e) = ap (put 0) e

put-one : (a : Tree) (o : Option (List Tree)) → IsUnread o → put 0 (add a o) ≡ none
put-one a o (inl e) = ap (λ s. put 0 (add a s)) e
put-one a o (inr e) = ap (λ s. put 0 (add a s)) e

later_cut :
    (a b : Tree) (m k : ℕ)
    → m ≡ length (dump a) + k
    → IsUnread (stacked (take k (dump b)))
    → put 0 (stacked (take m (dump a ++ dump b))) ≡ none
later_cut a b m k e unread =
    ap (λ s. put 0 (stacked s)) (take-more m (dump a) (dump b) k e)
    ∙ ap (put 0) (stacked-dump a (take k (dump b)))
    ∙ put-one a (stacked (take k (dump b))) unread

stacked-cut : (d : Tree) (n : ℕ) → n < length (dump d) → IsUnread (stacked (take n (dump d)))
stacked-cut (atom n) zero h = inr refl
stacked-cut (atom n) (suc m) h = absurd (omega arith)
stacked-cut (pair a b) zero h = inr refl
stacked-cut (pair a b) (suc m) h = elim (Bool-cases (ltb m (length (dump a)))) [
  | inl inside ↦
      let short : m < length (dump a) = ground (arith, inside) in
      inl (
        ap (λ s. put 0 (stacked s)) (take-append m (dump a) (dump b) (omega (arith, short)))
        ∙ put-unread (stacked (take m (dump a))) (stacked-cut a m short))
  | inr past ↦
      let k = m - length (dump a) in
      let bound : k < length (dump b) = ground (arith, past, h, length-append (dump a) (dump b)) in
      let split : m ≡ length (dump a) + k = ground (arith, past) in
      inl (later_cut a b m k split (stacked-cut b k bound))
]

pub read_tree-cut : (d : Tree) (n : ℕ) → n < length (dump d) → read_tree (take n (dump d)) ≡ none
read_tree-cut d n h = unread (stacked (take n (dump d))) (stacked-cut d n h)
  where
    unread : (o : Option (List Tree)) → IsUnread o → only o ≡ none
    unread o (inl e) = ap only e
    unread o (inr e) = ap only e

pub dump_given : (d : Tree) → dump d ≢ []
dump_given (atom n) e = absurd (ground (arith, e))
dump_given (pair a b) e = absurd (ground (arith, e))

All-append :
    (xs ys : Text)
    → All (λ c. eqb c 10 ≡ false) xs
    → All (λ c. eqb c 10 ≡ false) ys
    → All (λ c. eqb c 10 ≡ false) (xs ++ ys)
All-append [] ys h k = k
All-append (x ∷ xs) ys h k = (h.0, All-append xs ys h.1 k)

pub dump_one_line : (d : Tree) → All (λ c. eqb c 10 ≡ false) (dump d)
dump_one_line (atom n) = (ground arith, tt)
dump_one_line (pair a b) =
    (ground arith, All-append (dump a) (dump b) (dump_one_line a) (dump_one_line b))

pub letters_of-letters : (s : Text) → letters_of (letters s) ≡ s
letters_of-letters [] = refl
letters_of-letters (c ∷ s) = ap (λ r. c ∷ r) (letters_of-letters s)

pub listed_of-listed : (ds : List Tree) → listed_of (listed ds) ≡ ds
listed_of-listed [] = refl
listed_of-listed (d ∷ ds) = ap (λ r. d ∷ r) (listed_of-listed ds)

pub member_of-members : (k : Text) (ms : List (Text × Tree)) → member_of k (members ms) ≡ find k ms
unfolding find
member_of-members k [] = refl
member_of-members k ((j, d) ∷ ms) =
    ap (λ s. if text_eq s k then some d else member_of k (members ms)) (letters_of-letters j)
    ∙ ap (λ r. if text_eq j k then some d else r) (member_of-members k ms)

pub number_read-number : (n : ℤ) → number_read (number n) ≡ n
number_read-number (pos n) = refl
number_read-number (negsuc n) = refl

abbrev pub documents : Json
documents = record {
  Document = Tree;
  dump = dump;
  parse = read_tree;
  null = atom 0;
  text = λ s. pair (atom 1) (letters s);
  boolean = λ b. pair (atom 6) (atom (if b then 1 else 0));
  unsigned = λ n. pair (atom 2) (atom n);
  integer = λ n. pair (atom 3) (number n);
  array = λ ds. pair (atom 4) (listed ds);
  object = λ ms. pair (atom 5) (members ms);
  is_object = λ d. eqb (tag d) 5;
  member = λ k d. member_of k (right d);
  elements = λ d. listed_of (right d);
  as_text = λ d. if eqb (tag d) 1 then some (letters_of (right d)) else none;
  is_unsigned = λ d. eqb (tag d) 2;
  as_unsigned = λ d. if eqb (tag d) 2 then some (number_of (right d)) else none;
  as_int = λ d. if eqb (tag d) 3 then some (number_read (right d)) else none;
  parse-dump = read_tree-dump;
  dump_one_line = dump_one_line;
  dump_given = dump_given;
  parse_cut = λ ms n h. read_tree-cut (pair (atom 5) (members ms)) n h;
  object_is = λ ms. refl;
  member-object = λ k ms. member_of-members k ms;
  elements-array = λ ds. listed_of-listed ds;
  text_read = λ s. ap some (letters_of-letters s);
  unsigned_is = λ n. refl;
  unsigned_read = λ n. refl;
  int_read = λ n. ap some (number_read-number n);
  null_no_text = refl;
  null_no_number = refl;
  null_no_object = refl;
}
