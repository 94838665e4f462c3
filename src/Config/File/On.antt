-- ===== src/Config/File/On.antt =====
-- Which tables of providers `LBConfig.confirm_data_type` (lobbyboy/config.py) takes as enabled.
use lobbyboy.Base.{
  ◌≡◌, refl, ◌⊎◌, zero, suc, true, false, String, ◌===◌, ===_iff, List, [], ◌∷◌, Option, none, some,
  Bool-cases, Option-cases, inl, inr, arith,
}
use lobbyboy.Base.Int.{pos, negsuc}
use lobbyboy.Base.Dict.{Dict, lookup}
use lobbyboy.Convert.{Value, object, table, unknown}
use lobbyboy.Config.Json.{Json, null, flag, number, text, compound, Raw}
use lobbyboy.Config.File.{is_true, is_enabled}
use lobbyboy.Config.File.Enabled.{enabled_names}

-- The values that count as false: nothing, `false`, zero, and an empty text, array or object.
abbrev pub IsOff : Json → Type 0
IsOff null = Unit
IsOff (flag b) = b ≡ false
IsOff (number z) = z ≡ pos 0
IsOff (text s) = s ≡ ""
IsOff (compound s) = (s ≡ "[]") ⊎ (s ≡ "{}")

-- The setting of a table: what is not set is on.
abbrev pub IsOn : Option Json → Type 0
IsOn none = Unit
IsOn (some j) = ¬ IsOff j

-- The names are those of the tables that are on, in their order.
abbrev pub AreEnabled : {C : Type 0} → Dict (Value C Raw) → List String → Type 0
AreEnabled [] names = names ≡ []
AreEnabled ((name, table t) ∷ d) names =
    (IsOn (lookup "enable" t) × (rest : List String) × (names ≡ name ∷ rest) × AreEnabled d rest)
    ⊎ (¬ IsOn (lookup "enable" t) × AreEnabled d names)
AreEnabled ((name, object c) ∷ d) names = AreEnabled d names
AreEnabled ((name, unknown t) ∷ d) names = AreEnabled d names

is_true-IsOn : (j : Json) → is_true j ≡ true → ¬ IsOff j
unfolding is_true
is_true-IsOn null h off = absurd (cc h)
is_true-IsOn (flag b) h off = cc (h, off)
is_true-IsOn (number (pos zero)) h off = absurd (cc h)
is_true-IsOn (number (pos (suc n))) h off = absurd (cc off)
is_true-IsOn (number (negsuc n)) h off = absurd (cc off)
is_true-IsOn (text s) h off = ground (arith, ===_iff s "")
is_true-IsOn (compound s) h (inl off) = ground (arith, ===_iff s "[]")
is_true-IsOn (compound s) h (inr off) = ground (arith, ===_iff s "{}")

is_true-IsOff : (j : Json) → is_true j ≡ false → IsOff j
unfolding is_true
is_true-IsOff null h = tt
is_true-IsOff (flag b) h = h
is_true-IsOff (number (pos zero)) h = refl
is_true-IsOff (number (pos (suc n))) h = absurd (cc h)
is_true-IsOff (number (negsuc n)) h = absurd (cc h)
is_true-IsOff (text s) h = ground (arith, ===_iff s "")
is_true-IsOff (compound s) h = elim (Bool-cases (s === "[]")) [
  | inl e ↦ inl ((===_iff s "[]").0 e)
  | inr e ↦ inr (ground (arith, ===_iff s "{}"))
]

is_enabled-IsOn : (t : Raw) → is_enabled t ≡ true → IsOn (lookup "enable" t)
unfolding is_enabled
is_enabled-IsOn t h = elim (Option-cases (lookup "enable" t)) [
  | inl e ↦ rw (e) tt
  | inr (j, e) ↦ let on : is_true j ≡ true = rw (e) at h in rw (e) (is_true-IsOn j on)
]

is_enabled-IsOff : (t : Raw) → is_enabled t ≡ false → ¬ IsOn (lookup "enable" t)
unfolding is_enabled is_true
is_enabled-IsOff t h on = elim (Option-cases (lookup "enable" t)) [
  | inl e ↦ let off : true ≡ false = rw (e) at h in absurd (cc off)
  | inr (j, e) ↦
      let off : is_true j ≡ false = rw (e) at h in
      let on' : ¬ IsOff j = rw (e) at on in on' (is_true-IsOff j off)
]

pub enabled_names-AreEnabled :
    {C : Type 0} (d : Dict (Value C Raw)) → AreEnabled d (enabled_names d)
unfolding enabled_names
enabled_names-AreEnabled [] = refl
enabled_names-AreEnabled ((name, object c) ∷ d) = enabled_names-AreEnabled d
enabled_names-AreEnabled ((name, unknown t) ∷ d) = enabled_names-AreEnabled d
enabled_names-AreEnabled ((name, table t) ∷ d) = elim (Bool-cases (is_enabled t)) [
  | inl e ↦ rw (e) (inl (is_enabled-IsOn t e, enabled_names d, refl, enabled_names-AreEnabled d))
  | inr e ↦ rw (e) (inr (is_enabled-IsOff t e, enabled_names-AreEnabled d))
]
