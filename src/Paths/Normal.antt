-- ===== src/Paths/Normal.antt =====
-- Paths in normal form, and how they are printed and read (`pathlib.Path`).
use Prim.Native.Char.{Char}
use text.Mathlib.TextLemmas.{append-eq-nil_iff, append-nil, append_assoc, nil-append, cons-append}
use lobbyboy.Base.{
  ◌≡◌, ◌≢◌, refl, sym, ◌∙◌, ap, ◌⊎◌, inl, inr, Bool, true, false, ◌||◌, String, ◌<>◌, List, [], ◌∷◌,
  arith, ◌===◌, ===_iff, if◌then◌else◌, All, Bool-cases,
}
use lobbyboy.Paths.{
  FilePath, is_slash, root_of, second, third, keep, split_parts, path_of, join_parts, show_parts,
  show_path,
}

abbrev has_slash : String → Bool
has_slash String.[] = false
has_slash (String.◌∷◌ c s) = is_slash c || has_slash s

pub record IsPart (p : String) : Type 0 where
  pub not_empty : p ≢ ""
  pub not_dot : p ≢ "."
  pub no_slash : has_slash p ≡ false

has_slash-snoc :
    (p : String) (c : Char)
    → has_slash p ≡ false
    → is_slash c ≡ false
    → has_slash (p <> String.◌∷◌ c String.[]) ≡ false
has_slash-snoc String.[] c h e = rw nil-append (ground arith)
has_slash-snoc (String.◌∷◌ d p) c h e = rw cons-append (ground (arith, has_slash-snoc p c))

keep-IsPart :
    (p : String) (rest : List String)
    → has_slash p ≡ false
    → All IsPart rest
    → All IsPart (keep p rest)
unfolding keep
keep-IsPart p rest h a = elim (Bool-cases (p === "" || p === ".")) [
  | inl e ↦ rw (e, keep) a
  | inr e ↦
      rw (e, keep)
        (
          record {
            not_empty = λ q. ground (arith, ===_iff p "");
            not_dot = λ q. ground (arith, ===_iff p ".");
            no_slash = h;
          },
          a,
        )
]

split_parts-IsPart : (s part : String) → has_slash part ≡ false → All IsPart (split_parts s part)
unfolding split_parts
split_parts-IsPart String.[] part h = keep-IsPart part [] h tt
split_parts-IsPart (String.◌∷◌ c s) part h = elim (Bool-cases (is_slash c)) [
  | inl e ↦ rw (e, split_parts) (keep-IsPart part _ h (split_parts-IsPart s "" refl))
  | inr e ↦ rw (e, split_parts) (split_parts-IsPart s _ (has_slash-snoc part c h e))
]

snoc-append :
    (s : String) (c : Char) (t : String) → (s <> String.◌∷◌ c String.[]) <> t ≡ s <> String.◌∷◌ c t
snoc-append s c t =
    let one : String = String.◌∷◌ c String.[] in
    append_assoc s one t
    ∙ ap (λ u. s <> u) (cons-append c String.[] t ∙ ap (String.◌∷◌ c) (nil-append t))

split_parts-append :
    (p rest part : String)
    → has_slash p ≡ false
    → split_parts (p <> rest) part ≡ split_parts rest (part <> p)
unfolding split_parts
split_parts-append String.[] rest part h = rw (nil-append, append-nil) refl
split_parts-append (String.◌∷◌ c p) rest part h =
    let here : is_slash c ≡ false = ground arith in
    let there : has_slash p ≡ false = ground arith in
    rw (cons-append, here, split_parts)
      (split_parts-append p rest (part <> String.◌∷◌ c String.[]) there
        ∙ ap (split_parts rest) (snoc-append part c p))

module _ (p : String) (h : IsPart p) where
  keep-IsPart_lem : (rest : List String) → keep p rest ≡ p ∷ rest
  unfolding keep
  keep-IsPart_lem rest = ground (arith, ===_iff p "", ===_iff p ".", h.not_empty, h.not_dot)

  split_parts_one : split_parts p "" ≡ p ∷ []
  unfolding split_parts
  split_parts_one =
      ap (λ t. split_parts t "") (sym (append-nil p))
      ∙ split_parts-append p "" "" h.no_slash
      ∙ ap (split_parts "") (nil-append p)
      ∙ keep-IsPart_lem []

  split_parts-slash : (rest : String) → split_parts (p <> "/" <> rest) "" ≡ p ∷ split_parts rest ""
  unfolding split_parts
  split_parts-slash rest =
      split_parts-append p ("/" <> rest) "" h.no_slash
      ∙ ap (split_parts ("/" <> rest)) (nil-append p)
      ∙ rw (cons-append, nil-append) (keep-IsPart_lem (split_parts rest ""))

split_parts-join_parts : (ps : List String) → All IsPart ps → split_parts (join_parts ps) "" ≡ ps
unfolding split_parts join_parts
split_parts-join_parts [] h = refl
split_parts-join_parts (p ∷ []) h = split_parts_one p h.0
split_parts-join_parts (p ∷ q ∷ ps) h =
    split_parts-slash p h.0 (join_parts (q ∷ ps))
    ∙ ap (λ t. p ∷ t) (split_parts-join_parts (q ∷ ps) h.1)

abbrev slash : Char
slash = "/"

root_of-part : (p rest : String) → IsPart p → root_of (p <> rest) ≡ ""
unfolding root_of
root_of-part String.[] rest h = absurd (h.not_empty refl)
root_of-part (String.◌∷◌ c p) rest h = rw cons-append (ground (arith, h.no_slash))

-- The roots that a path can have.
abbrev pub IsRoot : String → Type 0
IsRoot r = (r ≡ "") ⊎ (r ≡ "/") ⊎ (r ≡ "//")

IsRoot-if : (b : Bool) (x y : String) → IsRoot x → IsRoot y → IsRoot (if b then x else y)
IsRoot-if true x y h k = h
IsRoot-if false x y h k = k

root_of-IsRoot : (s : String) → IsRoot (root_of s)
unfolding root_of
root_of-IsRoot String.[] = inl refl
root_of-IsRoot (String.◌∷◌ c String.[]) = IsRoot-if (is_slash c) "/" "" (inr (inl refl)) (inl refl)
root_of-IsRoot (String.◌∷◌ c (String.◌∷◌ d String.[])) =
    IsRoot-if (is_slash c) _ "" (IsRoot-if (is_slash d) "//" "/" (inr (inr refl)) (inr (inl refl)))
      (inl refl)
root_of-IsRoot (String.◌∷◌ c (String.◌∷◌ d (String.◌∷◌ e s))) =
    IsRoot-if (is_slash c) _ ""
      (IsRoot-if (is_slash d) _ "/"
        (IsRoot-if (is_slash e) "/" "//" (inr (inl refl)) (inr (inr refl))) (inr (inl refl)))
      (inl refl)

pub record IsNormal (p : FilePath) : Type 0 where
  pub root : IsRoot p.root
  pub parts : All IsPart p.parts

pub path_of-IsNormal : (s : String) → IsNormal (path_of s)
unfolding path_of
path_of-IsNormal s = record { root = root_of-IsRoot s; parts = split_parts-IsPart s "" refl }

starts_with_part :
    (p : String) (ps : List String) → (rest : String) × (join_parts (p ∷ ps) ≡ p <> rest)
unfolding join_parts
starts_with_part p [] = ("", sym (append-nil p))
starts_with_part p (q ∷ ps) = ("/" <> join_parts (q ∷ ps), refl)

second-part : (p rest : String) → IsPart p → second (p <> rest) ≡ "/"
unfolding second
second-part String.[] rest h = absurd (h.not_empty refl)
second-part (String.◌∷◌ c p) rest h = rw cons-append (ground (arith, h.no_slash))

third-part : (p rest : String) → IsPart p → third (p <> rest) ≡ "//"
unfolding third
third-part String.[] rest h = absurd (h.not_empty refl)
third-part (String.◌∷◌ c p) rest h = rw cons-append (ground (arith, h.no_slash))

slash-append : (s : String) → "/" <> s ≡ String.◌∷◌ slash s
slash-append s = cons-append slash String.[] s ∙ ap (String.◌∷◌ slash) (nil-append s)

slashes-append : (s : String) → "//" <> s ≡ String.◌∷◌ slash (String.◌∷◌ slash s)
slashes-append s = cons-append slash "/" s ∙ ap (String.◌∷◌ slash) (slash-append s)

-- What each root makes of the parts behind it.
module _ (p : String) (ps : List String) (h : All IsPart (p ∷ ps)) where
  joined : String
  joined = join_parts (p ∷ ps)

  root_of-joined : root_of joined ≡ ""
  unfolding joined
  root_of-joined = let (rest, e) = starts_with_part p ps in rw e (root_of-part p rest h.0)

  second-joined : second joined ≡ "/"
  unfolding joined
  second-joined = let (rest, e) = starts_with_part p ps in rw e (second-part p rest h.0)

  third-joined : third joined ≡ "//"
  unfolding joined
  third-joined = let (rest, e) = starts_with_part p ps in rw e (third-part p rest h.0)

  parts-joined : split_parts joined "" ≡ p ∷ ps
  unfolding joined
  parts-joined = split_parts-join_parts (p ∷ ps) h

  path_of-joined :
      (root : String)
      → IsRoot root
      → path_of (root <> joined) ≡ record { root = root; parts = p ∷ ps }
  unfolding path_of
  path_of-joined root (inl e) =
      rw (e, nil-append) (λ i. record { root = root_of-joined i; parts = parts-joined i })
  path_of-joined root (inr (inl e)) =
      rw (e, slash-append) (λ i. record { root = second-joined i; parts = parts-joined i })
  path_of-joined root (inr (inr e)) =
      rw (e, slashes-append) (λ i. record { root = third-joined i; parts = parts-joined i })

path_of-root :
    (root : String)
    → IsRoot root
    → path_of (show_parts root []) ≡ record { root = root; parts = [] }
unfolding path_of show_parts
path_of-root root (inl e) = rw e refl
path_of-root root (inr (inl e)) = rw e refl
path_of-root root (inr (inr e)) = rw e refl

-- A path in normal form, printed, is read back as itself.
pub path_of-show_path : (p : FilePath) → IsNormal p → path_of (show_path p) ≡ p
unfolding show_path joined
path_of-show_path p h = shown p.root p.parts h.root h.parts
  where
    shown :
        (root : String) (ps : List String)
        → IsRoot root
        → All IsPart ps
        → path_of (show_parts root ps) ≡ record { root = root; parts = ps }
    shown root [] r a = path_of-root root r
    shown root (q ∷ ps) r a = path_of-joined q ps a root r

dot_or_root : (root : String) → (if root === "" then "." else root) ≢ ""
dot_or_root root e = ground (arith, ===_iff root "", ===_iff "." "")

-- No path is printed as the empty text.
pub show_path-ne-empty : (p : FilePath) → IsNormal p → show_path p ≢ ""
unfolding show_path show_parts
show_path-ne-empty p h = shown p.root p.parts h.parts
  where
    shown : (root : String) (ps : List String) → All IsPart ps → show_parts root ps ≢ ""
    shown root [] a e = dot_or_root root e
    shown root (q ∷ ps) a e =
        let (rest, joined_eq) = starts_with_part q ps in
        a.0.not_empty (append-eq-nil_iff.0 (sym joined_eq ∙ (append-eq-nil_iff.0 e).1)).0
