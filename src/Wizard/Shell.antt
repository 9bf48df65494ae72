-- ===== src/Wizard/Shell.antt =====
-- src/bin/wizard.rs: the printed command line, as a shell reads it.
use kernel_node.Prelude.{
  ◌||◌, ℕ, All, ◌≡◌, refl, sym, ap, ◌∙◌, ◌⊎◌, inl, inr, Bool, true, false, not, Option, none, some,
  List, ◌∷◌, ◌++◌, map, arith, ℕ_discrete, if◌then◌else◌, Bool-cases, ◌==◌, nat_eq, [],
}
use kernel_node.Prelude.Text.{codes, join, all}
use mathlib.Core.List.{append_assoc, append-nil}
use kernel_node.Wizard.{is_safe, escape_quotes, shell_quote, printable, Answers, args_of}

-- Where a shell is in its line.
pub data Mode : Type 0 where
  between word quoted escaped : Mode

pub data Class : Type 0 where
  space quote backslash tilde plain special : Class

-- The characters that mean something to a POSIX shell, or to one that expands braces and history,
-- beside the quotes, the space and the tilde.
unfoldable pub is_special : ℕ → Bool
unfolding all
is_special c = not (all (λ d. not (c == d)) (9 ∷ 10 ∷ 13 ∷ codes "|&;<>()$`\"*?[]#!{}^%"))

abbrev pub classify : ℕ → Class
classify c =
    if c == b' '
    then space
    else if c == b'\''
    then quote
    else if c == b'\\'
    then backslash
    else if c == b'~'
    then tilde
    else if is_special c
    then special
    else plain

-- A character before the first of the words.
abbrev pub push : ℕ → Option (List (List ℕ)) → Option (List (List ℕ))
push c none = none
push c (some []) = none
push c (some (w ∷ ws)) = some ((c ∷ w) ∷ ws)

abbrev pub next_word : Option (List (List ℕ)) → Option (List (List ℕ))
next_word none = none
next_word (some ws) = some ([] ∷ ws)

-- The words of the rest of a line; within a word, the first is the rest of that word. A line of special
-- characters or tildes outside quotes is not read here: shells expand a tilde before a word, and some of
-- them after a sign within it.
pub read_words : Mode → List ℕ → Option (List (List ℕ))
read_words between [] = some []
read_words word [] = some ([] ∷ [])
read_words quoted [] = none
read_words escaped [] = none
read_words between (c ∷ line) = elim (classify c) [
  | space ↦ read_words between line
  | quote ↦ read_words quoted line
  | backslash ↦ read_words escaped line
  | plain ↦ push c (read_words word line)
  | _ ↦ none
]
read_words word (c ∷ line) = elim (classify c) [
  | space ↦ next_word (read_words between line)
  | quote ↦ read_words quoted line
  | backslash ↦ read_words escaped line
  | plain ↦ push c (read_words word line)
  | _ ↦ none
]
read_words quoted (c ∷ line) = elim (c == b'\'') [
  | true ↦ read_words word line
  | false ↦ push c (read_words quoted line)
]
read_words escaped (c ∷ line) = push c (read_words word line)

abbrev prefix : List ℕ → Option (List (List ℕ)) → Option (List (List ℕ))
prefix [] o = o
prefix (c ∷ w) o = push c (prefix w o)

safe_is_no_special : (c : ℕ) → is_safe c ≡ true → is_special c ≡ false
unfolding is_safe is_special all
safe_is_no_special c h = ground (arith, h)

-- Of a safe character only a tilde is no plain one.
safe_class : (c : ℕ) → is_safe c ≡ true → (classify c ≡ plain) ⊎ (classify c ≡ tilde)
unfolding is_safe all
safe_class c h = elim (Bool-cases (c == b'~')) [
  | inl same ↦ inr (ground (arith, same))
  | inr other ↦ inl (ground (arith, other, h, safe_is_no_special c h))
]

-- No character of the word is a tilde.
abbrev pub has_no_tilde : List ℕ → Bool
has_no_tilde w = all (λ c. not (c == b'~')) w

read_words-prefix :
    (w rest : List ℕ)
    → all is_safe w ≡ true
    → has_no_tilde w ≡ true
    → read_words word (w ++ rest) ≡ prefix w (read_words word rest)
unfolding all read_words
read_words-prefix [] rest h k = refl
read_words-prefix (c ∷ w) rest h k =
    let step = ap (push c) (read_words-prefix w rest (ground (arith, h)) (ground (arith, k))) in
    elim (safe_class c (ground (arith, h))) [
      | inl p ↦ rw (p, read_words) step
      | inr p ↦ absurd (ground (arith, p, k))
    ]

quoted_end : (rest : List ℕ) → read_words quoted (b'\'' ∷ rest) ≡ read_words word rest
unfolding read_words ℕ_discrete
quoted_end rest = refl

quoted_step :
    (c : ℕ) (rest : List ℕ)
    → (c == b'\'') ≡ false
    → read_words quoted (c ∷ rest) ≡ push c (read_words quoted rest)
unfolding read_words
quoted_step c rest other = ground (arith, other)

-- A quote that is left, a quote by itself, and the quotes that go on.
escaped_quote :
    (rest : List ℕ)
    → read_words quoted (codes "'\\''" ++ rest) ≡ push b'\'' (read_words quoted rest)
unfolding read_words ℕ_discrete
escaped_quote rest = refl

read_words-escape_quotes :
    (w rest : List ℕ)
    → read_words quoted (escape_quotes w ++ b'\'' ∷ rest) ≡ prefix w (read_words word rest)
unfolding escape_quotes
read_words-escape_quotes [] rest = quoted_end rest
read_words-escape_quotes (c ∷ w) rest =
    let more = ap (push c) (read_words-escape_quotes w rest) in
    elim (Bool-cases (c == b'\'')) [
      | inl same ↦
          let this : c ≡ b'\'' = ground (arith, same) in
          rw (same, append_assoc (codes "'\\''") (escape_quotes w) (b'\'' ∷ rest))
            (escaped_quote (escape_quotes w ++ b'\'' ∷ rest)
              ∙ ap (λ (d : ℕ). push d (read_words quoted (escape_quotes w ++ b'\'' ∷ rest)))
                  (sym this)
              ∙ more)
      | inr other ↦ rw other (quoted_step c (escape_quotes w ++ b'\'' ∷ rest) other ∙ more)
    ]

-- A shell may expand a tilde that stands outside quotes: a word that is printed without them has none.
abbrev pub NoTilde : List ℕ → Type 0
NoTilde w = (not (all is_safe w) || has_no_tilde w) ≡ true

between_quote : (rest : List ℕ) → read_words between (b'\'' ∷ rest) ≡ read_words quoted rest
unfolding read_words ℕ_discrete
between_quote rest = refl

between_plain :
    (c : ℕ) (rest : List ℕ)
    → classify c ≡ plain
    → read_words between (c ∷ rest) ≡ push c (read_words word rest)
unfolding read_words
between_plain c rest p = rw (p, read_words) refl

-- A word that is quoted is read as it was, whatever follows it.
read_words-shell_quote :
    (w rest : List ℕ)
    → NoTilde w
    → read_words between (shell_quote w ++ rest) ≡ prefix w (read_words word rest)
unfolding shell_quote all
read_words-shell_quote [] rest h = between_quote (b'\'' ∷ rest) ∙ quoted_end rest
read_words-shell_quote (c ∷ w) rest h = elim (Bool-cases (all is_safe (c ∷ w))) [
  | inl safe ↦
      let free : has_no_tilde (c ∷ w) ≡ true = ground (arith, safe, h) in
      elim (safe_class c (ground (arith, safe))) [
        | inr p ↦ absurd (ground (arith, p, free))
        | inl p ↦ rw safe (
            between_plain c (w ++ rest) p
            ∙ ap (push c) (read_words-prefix w rest (ground (arith, safe)) (ground (arith, free))))
      ]
  | inr unsafe ↦
      rw (unsafe, append_assoc (escape_quotes (c ∷ w)) (b'\'' ∷ []) rest)
        (between_quote (escape_quotes (c ∷ w) ++ b'\'' ∷ rest)
          ∙ read_words-escape_quotes (c ∷ w) rest)
]

prefix-some : (w v : List ℕ) (ws : List (List ℕ)) → prefix w (some (v ∷ ws)) ≡ some ((w ++ v) ∷ ws)
prefix-some [] v ws = refl
prefix-some (c ∷ w) v ws = rw (prefix-some w v ws) refl

word_end : read_words word [] ≡ some ([] ∷ [])
unfolding read_words
word_end = refl

word_space :
    (line : List ℕ) (ws : List (List ℕ))
    → read_words between line ≡ some ws
    → read_words word (b' ' ∷ line) ≡ some ([] ∷ ws)
unfolding read_words ℕ_discrete
word_space line ws e = rw e refl

read_words-join :
    (args : List (List ℕ))
    → All NoTilde args
    → read_words between (join b' ' (map shell_quote args)) ≡ some args
unfolding join
read_words-join [] h = unfold read_words in refl
read_words-join (a ∷ []) (h, hs) = rw (← append-nil (shell_quote a)) (
    read_words-shell_quote a [] h
    ∙ ap (prefix a) word_end
    ∙ prefix-some a [] []
    ∙ rw (append-nil a))
read_words-join (a ∷ b ∷ args) (h, hs) =
    let line = join b' ' (map shell_quote (b ∷ args)) in
    read_words-shell_quote a (b' ' ∷ line) h
    ∙ ap (prefix a) (word_space line (b ∷ args) (read_words-join (b ∷ args) hs))
    ∙ prefix-some a [] (b ∷ args)
    ∙ rw (append-nil a)

cargo_space :
    (line : List ℕ) (ws : List (List ℕ))
    → read_words between line ≡ some ws
    → read_words between (codes "cargo " ++ line) ≡ some (codes "cargo" ∷ ws)
unfolding read_words ℕ_discrete is_special all
cargo_space line ws e = rw e refl

-- Whatever is answered: a POSIX shell, or bash, that is given the line which is printed runs the command
-- that the wizard itself runs, with the same arguments. No argument that is printed without quotes has
-- a tilde.
pub read_words-printable :
    (a : Answers)
    → All NoTilde (args_of a)
    → read_words between (printable a) ≡ some (codes "cargo" ∷ args_of a)
unfolding printable
read_words-printable a h =
    cargo_space (join b' ' (map shell_quote (args_of a))) (args_of a)
      (read_words-join (args_of a) h)
