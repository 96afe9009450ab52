-- ===== src/Kind/Codec.antt =====
-- The encodings of kinds: `decode` takes back what `encode` makes.
use Prim.Native.Nat.{ℕ}
use Prim.Native.Char.{code}
use Prim.Native.String.{◌++◌}
use Prim.Native.String.append
use text.Mathlib.Text.{◌==◌ as str_eq}
use text.Mathlib.TextEquality.{eq_iff}
use weavegraph.Base.{
  String, ◌≡◌, refl, sym, ap, ◌∙◌, false, Bool-cases, inl, inr, Option, none, some, if◌then◌else◌,
  ℕ-key, test-same, arith,
}
use weavegraph.Kind.{NodeKind, start, end, custom, encode, strip_prefix, decode}

strip_prefix-append : (p s : String) → strip_prefix p (p ++ s) ≡ some s
unfolding strip_prefix
strip_prefix-append String.[] s = ap some (append.nil s)
strip_prefix-append (String.◌∷◌ c p) s =
    ap (strip_prefix (String.◌∷◌ c p)) (append.cons c p s)
    ∙ ap (λ b. if b then strip_prefix p (p ++ s) else none) (test-same (code c) (code c) refl)
    ∙ strip_prefix-append p s

abbrev first_code : String → ℕ
first_code String.[] = 0
first_code (String.◌∷◌ c s) = code c

custom_first : (name : String) → first_code ("Custom:" ++ name) ≡ 67
custom_first name = ap first_code (append.cons _ "ustom:" name)

-- The prefix keeps an encoded custom kind apart from a text that begins otherwise.
custom_apart : (name s : String) → ¬ (first_code s ≡ 67) → str_eq ("Custom:" ++ name) s ≡ false
custom_apart name s other = elim (Bool-cases (str_eq ("Custom:" ++ name) s)) [
  | inl same ↦
      absurd
        (other (sym (ap first_code ((eq_iff ("Custom:" ++ name) s).0 same)) ∙ custom_first name))
  | inr apart ↦ apart
]

-- A kind comes back from its encoding.
pub decode-encode : (kind : NodeKind) → decode (encode kind) ≡ kind
unfolding decode encode
decode-encode start = refl
decode-encode end = refl
decode-encode (custom name) =
    ap
      (λ b.
        if b then start else if str_eq text "End" then end else rest (strip_prefix "Custom:" text))
      (custom_apart name "Start" (λ e. omega arith))
    ∙ ap (λ b. if b then end else rest (strip_prefix "Custom:" text))
        (custom_apart name "End" (λ e. omega arith))
    ∙ ap rest (strip_prefix-append "Custom:" name)
  where
    text : String
    text = "Custom:" ++ name

    rest : Option String → NodeKind
    rest o = elim o [ some r ↦ custom r | none ↦ custom text ]
