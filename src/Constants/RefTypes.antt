-- ===== src/Constants/RefTypes.antt =====
-- alws/constants.py: BuildTaskRefType and its two text mappings.
use albs_web_server.Prelude.{
  ℕ, String, List, [], ◌∷◌, map, Option, none, some, lookup, nat_eq, string_eq, Result, ok, err,
  Error, ◌≡◌, ◌↔◌, ap, Memᴰ, mem-of_lookup,
}

pub data BuildTaskRefType : Type 0 where
  git_branch git_tag srpm_url git_ref : BuildTaskRefType

unfoldable pub value : BuildTaskRefType → ℕ
value git_branch = 1
value git_tag = 2
value srpm_url = 3
value git_ref = 4

unfoldable pub build_ref_str_mapping : List (String × ℕ)
unfolding value
build_ref_str_mapping =
    ("git_branch", value git_branch)
    ∷ ("git_tag", value git_tag)
    ∷ ("srpm_url", value srpm_url)
    ∷ ("git_ref", value git_ref)
    ∷ []

-- `{value: key for key, value in build_ref_str_mapping.items()}`.
unfoldable pub build_ref_int_mapping : List (ℕ × String)
unfolding build_ref_str_mapping
build_ref_int_mapping = map (λ p. (p.1, p.0)) build_ref_str_mapping

-- `mapping[key]`.
abbrev at_key : {A : Type 0} → Option A → Result A
at_key none = err Error.key_error
at_key (some a) = ok a

unfoldable pub from_text : String → Result ℕ
unfolding build_ref_str_mapping lookup
from_text text = at_key (lookup text build_ref_str_mapping)

unfoldable pub to_text : ℕ → Result String
unfolding build_ref_int_mapping lookup
to_text n = at_key (lookup n build_ref_int_mapping)

-- Every entry of the first mapping is read by both functions.
swapped :
    {text : String} {n : ℕ}
    → Memᴰ {A = String × ℕ} (text, n) build_ref_str_mapping
    → to_text n ≡ ok text
unfolding to_text build_ref_str_mapping
swapped (Memᴰ.head e) = rw (ap (λ p. p.0) e, ap (λ p. p.1) e)
swapped (Memᴰ.tail (Memᴰ.head e)) = rw (ap (λ p. p.0) e, ap (λ p. p.1) e)
swapped (Memᴰ.tail (Memᴰ.tail (Memᴰ.head e))) = rw (ap (λ p. p.0) e, ap (λ p. p.1) e)
swapped (Memᴰ.tail (Memᴰ.tail (Memᴰ.tail (Memᴰ.head e)))) = rw (ap (λ p. p.0) e, ap (λ p. p.1) e)
swapped (Memᴰ.tail (Memᴰ.tail (Memᴰ.tail (Memᴰ.tail m)))) = elim m [ ]

unswap :
    {k : String} {v : ℕ} (m : List (String × ℕ))
    → Memᴰ {A = ℕ × String} (v, k) (map (λ p. (p.1, p.0)) m)
    → Memᴰ {A = String × ℕ} (k, v) m
unswap [] h = elim h [ ]
unswap (p ∷ m) (Memᴰ.head e) = Memᴰ.head (ap {B = String × ℕ} (λ q. (q.1, q.0)) e)
unswap (p ∷ m) (Memᴰ.tail h) = Memᴰ.tail (unswap m h)

entry-from_text :
    {text : String} {n : ℕ}
    → Memᴰ {A = String × ℕ} (text, n) build_ref_str_mapping
    → from_text text ≡ ok n
unfolding from_text build_ref_str_mapping
entry-from_text (Memᴰ.head e) = rw (ap (λ p. p.0) e, ap (λ p. p.1) e)
entry-from_text (Memᴰ.tail (Memᴰ.head e)) = rw (ap (λ p. p.0) e, ap (λ p. p.1) e)
entry-from_text (Memᴰ.tail (Memᴰ.tail (Memᴰ.head e))) = rw (ap (λ p. p.0) e, ap (λ p. p.1) e)
entry-from_text (Memᴰ.tail (Memᴰ.tail (Memᴰ.tail (Memᴰ.head e)))) =
    rw (ap (λ p. p.0) e, ap (λ p. p.1) e)
entry-from_text (Memᴰ.tail (Memᴰ.tail (Memᴰ.tail (Memᴰ.tail m)))) = elim m [ ]

entry-to_text :
    {text : String} {n : ℕ}
    → Memᴰ {A = ℕ × String} (n, text) build_ref_int_mapping
    → from_text text ≡ ok n
unfolding build_ref_int_mapping
entry-to_text m = entry-from_text (unswap build_ref_str_mapping m)

at_key-eq-ok : {A : Type 0} (o : Option A) {a : A} → at_key o ≡ ok a → o ≡ some a
at_key-eq-ok none h = cc
at_key-eq-ok (some b) h = cc

-- The two mappings are inverse to each other: a text is read as a number exactly when that number
-- is printed as the text, for every text and every number.
pub from_text-to_text : (text : String) (n : ℕ) → (from_text text ≡ ok n) ↔ (to_text n ≡ ok text)
unfolding from_text to_text
from_text-to_text text n = (
  λ h. swapped (mem-of_lookup text build_ref_str_mapping (at_key-eq-ok _ h)),
  λ h. entry-to_text (mem-of_lookup n build_ref_int_mapping (at_key-eq-ok _ h)),
)
