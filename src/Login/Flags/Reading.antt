-- ===== src/Login/Flags/Reading.antt =====
-- How `parseOne` of Go's package `flag` reads an argument that gives a flag, with or without a value.
use Prim.Native.Char.{Char}
use Prim.Native.String.append
use auth_explore.Base.{
  String, ◌<>◌, ◌≡◌, refl, ap, ◌∙◌, Bool, true, false, ◌&&◌, not, Option, none, some,
}
use auth_explore.Login.Flags.{is_char, split_value, stop, flag, name_of, after_dash, read_argument}

-- A name of a flag: it does not begin with a dash and holds no `=`.
abbrev no_equals : String → Bool
no_equals String.[] = true
no_equals (String.◌∷◌ c s) = not (is_char b'=' c) && no_equals s

abbrev pub is_name : String → Bool
is_name String.[] = false
is_name (String.◌∷◌ c s) = not (is_char b'-' c) && (not (is_char b'=' c) && no_equals s)

-- `name` or `name=value`
abbrev pub with_value : String → Option String → String
with_value n none = n
with_value n (some v) = n <> ("=" <> v)

not-true : (b : Bool) {c : Bool} → (not b && c) ≡ true → (b ≡ false) × (c ≡ true)
not-true true h = cc
not-true false h = (refl, h)

equals_first : (v : String) → "=" <> v ≡ String.◌∷◌ "=" v
equals_first v = append.cons "=" "" v ∙ ap (String.◌∷◌ "=") (append.nil v)

split_value-with_value :
    (n : String) (o : Option String) → no_equals n ≡ true → split_value (with_value n o) ≡ (n, o)
unfolding split_value
split_value-with_value String.[] none h = refl
split_value-with_value String.[] (some v) h = rw (append.nil ("=" <> v), equals_first v) refl
split_value-with_value (String.◌∷◌ c s) none h =
    let (e, k) = not-true (is_char b'=' c) h in rw (e, split_value-with_value s none k) refl
split_value-with_value (String.◌∷◌ c s) (some v) h =
    let (e, k) = not-true (is_char b'=' c) h in
    rw (append.cons c s ("=" <> v), e, split_value-with_value s (some v) k) refl

after_dash-name :
    (c : Char) (s : String)
    → is_char b'-' c ≡ false
    → after_dash (String.◌∷◌ c s) ≡ name_of (String.◌∷◌ c s)
unfolding after_dash
after_dash-name c String.[] h = rw h refl
after_dash-name c (String.◌∷◌ d s) h = rw h refl

with_value-cons :
    (c : Char) (s : String) (o : Option String)
    → with_value (String.◌∷◌ c s) o ≡ String.◌∷◌ c (with_value s o)
with_value-cons c s none = refl
with_value-cons c s (some v) = append.cons c s ("=" <> v)

pub read_argument-with_value :
    (n : String) (o : Option String)
    → is_name n ≡ true
    → read_argument ("-" <> with_value n o) ≡ flag n o
unfolding read_argument name_of
read_argument-with_value String.[] o h = cc
read_argument-with_value (String.◌∷◌ c s) o h =
    let (d, h') = not-true (is_char b'-' c) h in
    let (e, k) = not-true (is_char b'=' c) h' in
    let x = with_value s o in
    rw (with_value-cons c s o, append.cons "-" "" (String.◌∷◌ c x), append.nil (String.◌∷◌ c x))
      (after_dash-name c x d ∙ rw (d, e, split_value-with_value s o k) refl)

abbrev pub begins_with_dash : String → Bool
begins_with_dash String.[] = false
begins_with_dash (String.◌∷◌ c s) = is_char b'-' c

pub read_argument-no_dash : (arg : String) → begins_with_dash arg ≡ false → read_argument arg ≡ stop
unfolding read_argument
read_argument-no_dash String.[] h = refl
read_argument-no_dash (String.◌∷◌ c s) h = rw h refl
