-- ===== src/Base/Dict.antt =====
-- Python's dictionaries with texts for keys, in insertion order.
use lobbyboy.Base.Tests.{◌===◌, ===_iff, if◌then◌else◌}
use Prim.Native.String.{String}
use mathlib.Core.Path.{◌≡◌, refl, ap, ◌∙◌}
use mathlib.Core.Logic.{◌≢◌}
use mathlib.Core.Option.{Option, none, some}
use mathlib.Core.List.{List, [], ◌∷◌, ◌++◌, map}
use native.Mathlib.Omega.{arith}

abbrev pub Dict {ℓ} : Type ℓ → Type ℓ
Dict V = List (String × V)

module _ {ℓ} {V : Type ℓ} where
  -- `d.get(k)`
  unfoldable pub lookup : String → Dict V → Option V
  lookup k [] = none
  lookup k ((j, v) ∷ d) = if k === j then some v else lookup k d

  -- `d[k] = v`
  unfoldable pub insert : String → V → Dict V → Dict V
  insert k v [] = (k, v) ∷ []
  insert k v ((j, w) ∷ d) = if k === j then (j, v) ∷ d else (j, w) ∷ insert k v d

  -- `d.pop(k, None)`
  unfoldable pub erase : String → Dict V → Dict V
  erase k [] = []
  erase k ((j, w) ∷ d) = let rest = erase k d in if k === j then rest else (j, w) ∷ rest

  abbrev pub keys : Dict V → List String
  keys = map (λ e. e.0)

  abbrev pub values : Dict V → List V
  values = map (λ e. e.1)

  -- No key stands twice.
  abbrev pub NodupKeys : Dict V → Type ℓ
  NodupKeys [] = Unit
  NodupKeys ((k, _) ∷ d) = (lookup k d ≡ none) × NodupKeys d

  -- `d.update(e)`
  unfoldable pub update : Dict V → Dict V → Dict V
  unfolding insert
  update d [] = d
  update d ((k, v) ∷ e) = update (insert k v d) e

  pub lookup-insert :
      (j k : String) (v : V) (d : Dict V)
      → lookup j (insert k v d) ≡ (if j === k then some v else lookup j d)
  unfolding insert lookup
  lookup-insert j k v [] = refl
  lookup-insert j k v ((i, w) ∷ d) =
      ground (arith, ===_iff j k, ===_iff j i, ===_iff k i, lookup-insert j k v d)

  pub lookup-insert_same : (k : String) (v : V) (d : Dict V) → lookup k (insert k v d) ≡ some v
  lookup-insert_same k v d = ground (arith, ===_iff k k, lookup-insert k k v d)

  pub lookup-insert_other :
      (j k : String) (v : V) (d : Dict V) → j ≢ k → lookup j (insert k v d) ≡ lookup j d
  lookup-insert_other j k v d h = ground (arith, ===_iff j k, lookup-insert j k v d)

  pub lookup-erase :
      (j k : String) (d : Dict V) → lookup j (erase k d) ≡ (if j === k then none else lookup j d)
  unfolding erase lookup
  lookup-erase j k [] = ground arith
  lookup-erase j k ((i, w) ∷ d) =
      ground (arith, ===_iff j k, ===_iff j i, ===_iff k i, lookup-erase j k d)

  pub insert-NodupKeys : (k : String) (v : V) (d : Dict V) → NodupKeys d → NodupKeys (insert k v d)
  unfolding insert lookup
  insert-NodupKeys k v [] u = (refl, tt)
  insert-NodupKeys k v ((j, w) ∷ d) (fresh, u) =
      ground (arith, ===_iff k j, ===_iff j k, insert-NodupKeys k v d u, lookup-insert j k v d)

  pub erase-NodupKeys : (k : String) (d : Dict V) → NodupKeys d → NodupKeys (erase k d)
  unfolding erase lookup
  erase-NodupKeys k [] u = tt
  erase-NodupKeys k ((j, w) ∷ d) (fresh, u) =
      ground (arith, erase-NodupKeys k d u, lookup-erase j k d)

module _ {ℓ} {V : Type ℓ} where
  pub insert_new :
      (k : String) (v : V) (d : Dict V) → lookup k d ≡ none → insert k v d ≡ d ++ (k, v) ∷ []
  unfolding insert lookup
  insert_new k v [] h = refl
  insert_new k v ((j, w) ∷ d) h = ground (arith, insert_new k v d)

  pub lookup-append_ne_none :
      (k : String) (v : V) (d e : Dict V) → lookup k (d ++ (k, v) ∷ e) ≢ none
  unfolding lookup
  lookup-append_ne_none k v [] e h = ground (arith, ===_iff k k)
  lookup-append_ne_none k v ((j, w) ∷ d) e h =
      ground (arith, ===_iff k j, lookup-append_ne_none k v d e)

  pub NodupKeys-append :
      (k : String) (v : V) (d e : Dict V) → NodupKeys (d ++ (k, v) ∷ e) → lookup k d ≡ none
  unfolding lookup
  NodupKeys-append k v [] e u = refl
  NodupKeys-append k v ((j, w) ∷ d) e (fresh, u) =
      ground
        (arith, ===_iff k j, ===_iff j k, NodupKeys-append k v d e u, lookup-append_ne_none k v d e)

module _ {ℓ κ} {V : Type ℓ} {W : Type κ} where
  -- No key of the second dictionary is in the first.
  abbrev pub Fresh : Dict V → Dict W → Type ℓ
  Fresh d [] = Unit
  Fresh d ((k, _) ∷ e) = (lookup k d ≡ none) × Fresh d e

  pub insert-Fresh :
      (k : String) (v : V) (d : Dict V) (e : Dict W)
      → lookup k e ≡ none
      → Fresh d e
      → Fresh (insert k v d) e
  unfolding lookup
  insert-Fresh k v d [] new fresh = tt
  insert-Fresh k v d ((j, w) ∷ e) new (here, fresh) =
      ground (arith, ===_iff j k, ===_iff k j, lookup-insert j k v d, insert-Fresh k v d e)

module _ {ℓ κ} {W : Type κ} (V : Type ℓ) where
  pub empty-Fresh : (e : Dict W) → Fresh {V = V} [] e
  unfolding lookup
  empty-Fresh [] = tt
  empty-Fresh ((k, w) ∷ e) = (refl, empty-Fresh e)

module _ {ℓ} {V : Type ℓ} where
  pub keys-append : (d e : Dict V) → keys (d ++ e) ≡ keys d ++ keys e
  keys-append [] e = refl
  keys-append (entry ∷ d) e = ap (λ ks. entry.0 ∷ ks) (keys-append d e)

  pub keys-insert_new :
      (k : String) (v : V) (d : Dict V) → lookup k d ≡ none → keys (insert k v d) ≡ keys d ++ k ∷ []
  keys-insert_new k v d h = ap keys (insert_new k v d h) ∙ keys-append d ((k, v) ∷ [])
