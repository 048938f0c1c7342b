-- ===== src/Config/Entries.antt =====
-- The listing of `git config --list -z --show-origin` written out, and what `entries` reads back.
use scap.Base.{
  ℕ, ◌≡◌, refl, ap, Bool, true, false, Option, none, some, List, [], ◌∷◌, ◌++◌, is_empty, arith,
  any, ◌==◌, ==_refl,
}
use scap.Base.Bytes.{Bytes, contains, split}
use scap.Base.Split.{split_on-append, split_once-append, split_once-none, contains-append}
use scap.Config.GitBackend.{entries, key_and_value}

-- One entry of git's: where it comes from, its key, and its value if it has one.
pub record GitEntry : Type 0 where
  pub origin : Bytes
  pub key : Bytes
  pub value : Option Bytes

abbrev pub text_of : Bytes → Option Bytes → Bytes
text_of key none = key
text_of key (some value) = key ++ (b'\n' ∷ value)

-- Each field ends in a NUL.
unfoldable pub printed : List GitEntry → Bytes
printed [] = []
printed (e ∷ es) = e.origin ++ (0 ∷ (text_of e.key e.value ++ (0 ∷ printed es)))

abbrev pub read_back : List GitEntry → List (Bytes × Option Bytes)
read_back [] = []
read_back (e ∷ es) = (e.key, e.value) ∷ read_back es

-- No field holds a NUL, and a key is text of at least one byte and without a newline.
abbrev pub IsValue : Option Bytes → Type 0
IsValue none = Unit
IsValue (some value) = contains 0 value ≡ false

abbrev pub AllPlain : (Bytes → Bool) → List GitEntry → Type 0
AllPlain is_utf8 [] = Unit
AllPlain is_utf8 (e ∷ es) =
    ((contains 0 e.origin ≡ false)
      × (contains 0 e.key ≡ false)
      × (contains b'\n' e.key ≡ false)
      × (is_empty e.key ≡ false)
      × (is_utf8 e.key ≡ true)
      × IsValue e.value)
    × AllPlain is_utf8 es

any-contains : (c : ℕ) (s : Bytes) → contains c s ≡ false → any (λ x. x == c) s ≡ false
any-contains c [] h = refl
any-contains c (x ∷ s) h = ground (arith, any-contains c s (ground arith))

contains-text_of :
    (key : Bytes) (value : Option Bytes)
    → contains 0 key ≡ false
    → IsValue value
    → contains 0 (text_of key value) ≡ false
contains-text_of key none h k = h
contains-text_of key (some value) h k =
    rw (contains-append 0 key (b'\n' ∷ value)) (ground (arith, h, k))

key_and_value-text_of :
    (key : Bytes) (value : Option Bytes)
    → contains b'\n' key ≡ false
    → key_and_value (text_of key value) ≡ (key, value)
key_and_value-text_of key none h = rw (key_and_value, split_once-none b'\n' key h) refl
key_and_value-text_of key (some value) h =
    rw (key_and_value, split_once-append b'\n' key value h) refl

is_empty-text_of :
    (key : Bytes) (value : Option Bytes)
    → is_empty key ≡ false
    → is_empty (text_of key value) ≡ false
is_empty-text_of key none h = h
is_empty-text_of [] (some value) h = absurd cc
is_empty-text_of (x ∷ key) (some value) h = refl

split-field :
    (field rest : Bytes)
    → contains 0 field ≡ false
    → split 0 (field ++ (0 ∷ rest)) ≡ field ∷ split 0 rest
split-field field rest h =
    split_on-append (λ x. x == 0) field 0 rest (any-contains 0 field h) (==_refl 0)

-- What git prints of entries whose fields hold no NUL and whose keys are non-empty texts without a
-- newline is read back as their keys and values, in order.
pub entries-printed :
    (is_utf8 : Bytes → Bool) (es : List GitEntry)
    → AllPlain is_utf8 es
    → entries is_utf8 (printed es) ≡ read_back es
unfolding entries printed
entries-printed is_utf8 [] h = refl
entries-printed is_utf8 (e ∷ es) h =
    let text = text_of e.key e.value in
    rw
      (
        split-field e.origin (text ++ (0 ∷ printed es)) h.0.0,
        split-field text (printed es) (contains-text_of e.key e.value h.0.1 h.0.5),
        is_empty-text_of e.key e.value h.0.3,
        key_and_value-text_of e.key e.value h.0.2,
        h.0.4,
      )
      (ap (◌∷◌ (e.key, e.value)) (entries-printed is_utf8 es h.1))
