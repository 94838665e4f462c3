-- ===== src/Contrib/Vagrant/Names.antt =====
-- `generate_server_name` (lobbyboy/contrib/provider/vagrant.py).
use mathlib.Core.Path.{subst}
use lobbyboy.Base.{
  ◌≡◌, refl, sym, ap, ℕ, zero, suc, ◌+◌, Bool, true, false, String, List, [], ◌∷◌, ◌++◌, given, All,
  Bool-cases, ◌⊎◌, inl, inr,
}
use lobbyboy.Exceptions.{no_available_name}
use lobbyboy.Act.{Result, ok, raised}
use lobbyboy.Paths.{joinpath}
use lobbyboy.Contrib.Host.{Host, Base}
use lobbyboy.Contrib.Vagrant.{vm_name, find_vm_name, generate_server_name}

-- So many numbers, from `idx` on.
abbrev pub indices : ℕ → ℕ → List ℕ
indices zero idx = []
indices (suc left) idx = idx ∷ indices left (idx + 1)

module _ {X : Type 0} (host : Host X) (self : Base) (x : X) where
  abbrev pub name_of : ℕ → String
  name_of idx = vm_name (given self.provider_config.server_name_prefix) idx

  abbrev pub is_taken : ℕ → Bool
  is_taken idx = host.system.exists (joinpath self.workspace (name_of idx)) x

  abbrev pub IsTaken : ℕ → Type 0
  IsTaken idx = is_taken idx ≡ true

  -- A search over the numbers: the name of the first one that is free, or an error where none is.
  abbrev Outcome : List ℕ → Result String × X → Type 0
  Outcome numbers r =
      ((before : List ℕ) × (i : ℕ) × (after : List ℕ) × (numbers ≡ before ++ i ∷ after)
        × All IsTaken before
        × (is_taken i ≡ false)
        × (r ≡ (ok (name_of i), x)))
      ⊎ (All IsTaken numbers × (r ≡ (raised no_available_name, x)))

  past-Outcome :
      (idx : ℕ) (numbers : List ℕ) (r : Result String × X)
      → IsTaken idx
      → Outcome numbers r
      → Outcome (idx ∷ numbers) r
  past-Outcome idx numbers r t (inl (before, i, after, e, all, free, f)) =
      inl (idx ∷ before, i, after, ap (λ (l : List ℕ). idx ∷ l) e, (t, all), free, f)
  past-Outcome idx numbers r t (inr (all, f)) = inr ((t, all), f)

  find_taken :
      (left idx : ℕ)
      → is_taken idx ≡ true
      → find_vm_name host self (suc left) idx x ≡ find_vm_name host self left (idx + 1) x
  unfolding find_vm_name
  find_taken left idx t = rw (t) refl

  find_free :
      (left idx : ℕ)
      → is_taken idx ≡ false
      → find_vm_name host self (suc left) idx x ≡ (ok (name_of idx), x)
  unfolding find_vm_name
  find_free left idx t = rw (t) refl

  find_vm_name-Outcome :
      (left idx : ℕ) → Outcome (indices left idx) (find_vm_name host self left idx x)
  unfolding find_vm_name
  find_vm_name-Outcome zero idx = inr (tt, refl)
  find_vm_name-Outcome (suc left) idx = elim (Bool-cases (is_taken idx)) [
    | inl t ↦ subst (Outcome (indices (suc left) idx)) (sym (find_taken left idx t)) (
        past-Outcome idx (indices left (idx + 1)) (find_vm_name host self left (idx + 1) x) t
          (find_vm_name-Outcome left (idx + 1)))
    | inr t ↦ inl ([], idx, indices left (idx + 1), refl, tt, t, find_free left idx t)
  ]

  -- A name that `generate_server_name` returns belongs to the first number from 1 to 98 whose directory
  -- does not exist, all before it being taken; it raises `NoAvailableNameException` only where all 98
  -- are taken, and makes no directory in either case.
  pub generate_server_name-first :
      ((before : List ℕ) × (i : ℕ) × (after : List ℕ) × (indices 98 1 ≡ before ++ i ∷ after)
        × All IsTaken before
        × (is_taken i ≡ false)
        × (generate_server_name host self x ≡ (ok (name_of i), x)))
      ⊎ (All IsTaken (indices 98 1)
          × (generate_server_name host self x ≡ (raised no_available_name, x)))
  unfolding generate_server_name
  generate_server_name-first = find_vm_name-Outcome 98 1
