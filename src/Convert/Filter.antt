-- ===== src/Convert/Filter.antt =====
-- `dict_factory` (lobbyboy/utils.py) and the filter of the entries that it stands for.
use lobbyboy.Base.{
  ◌≡◌, refl, ◌∙◌, ◌⊎◌, Bool, true, false, ◌===◌, ===_iff, arith, some, String, List, [], ◌∷◌, ◌++◌,
  Option, none, Bool-cases, inl, inr, if◌then◌else◌,
}
use mathlib.Core.List.{append_assoc, append-nil}
use lobbyboy.Base.Dict.{
  Fresh, insert-Fresh, empty-Fresh, Dict, lookup, insert, NodupKeys, insert_new,
}
use lobbyboy.Act.{Result, ok, raised, running, bind, ending, returned, threw, still_running}
use lobbyboy.Exceptions.{Exn}
use lobbyboy.Convert.{is_in, is_ignored, encoded, filter_into, dict_factory}

-- The entries that stay.
module _ {V : Type 0} (ignored : String → Bool) where
  unfoldable pub kept : Dict V → Dict V
  kept [] = []
  kept ((k, v) ∷ d) = let rest = kept d in if ignored k then rest else (k, v) ∷ rest

-- Every value encoded, in order, up to the first that raises.
module _ {V : Type 0} (encode : V → Result V) where
  unfoldable pub encode_all : Dict V → Result (Dict V)
  encode_all [] = ok []
  encode_all ((k, v) ∷ d) =
      let rest = encode_all d in bind (encode v) λ w. bind rest λ r. ok ((k, w) ∷ r)

module _ {V : Type 0} (ignored : String → Bool) (encode : V → Result V) where
  prepend : Dict V → Result (Dict V) → Result (Dict V)
  prepend filtered r = bind r λ d. ok (filtered ++ d)

  prepend-insert :
      (k : String) (w : V) (filtered : Dict V) (r : Result (Dict V))
      → lookup k filtered ≡ none
      → prepend (insert k w filtered) r ≡ prepend filtered (bind r λ d. ok ((k, w) ∷ d))
  unfolding prepend
  prepend-insert k w filtered (ok d) h = rw (insert_new k w filtered h, append_assoc) refl
  prepend-insert k w filtered (raised e) h = refl
  prepend-insert k w filtered running h = refl

  filter_into-kept :
      (filtered d : Dict V)
      → NodupKeys d
      → Fresh filtered d
      → filter_into ignored encode filtered d
        ≡ prepend filtered (encode_all encode (kept ignored d))
  unfolding filter_into encode_all kept prepend
  filter_into-kept filtered [] u fresh = rw append-nil refl
  filter_into-kept filtered ((k, v) ∷ d) (new, u) (here, fresh) = elim (Bool-cases (ignored k)) [
    | inl t ↦ rw (t) (filter_into-kept filtered d u fresh)
    | inr t ↦ elim (ending (encode v)) [
      | returned w e ↦
          rw (t, e)
            (filter_into-kept (insert k w filtered) d u (insert-Fresh k w filtered d new fresh)
              ∙ prepend-insert k w filtered (encode_all encode (kept ignored d)) here)
      | threw x e ↦ rw (t, e) refl
      | still_running e ↦ rw (t, e) refl
    ]
  ]

  prepend-nil : (r : Result (Dict V)) → prepend [] r ≡ r
  unfolding prepend
  prepend-nil (ok d) = refl
  prepend-nil (raised e) = refl
  prepend-nil running = refl

-- The encoder's answer, and the value itself where there is no encoder.
abbrev pub Encodes : {V : Type 0} → Option (V → Result V) → V → Result V → Type 0
Encodes none v r = r ≡ ok v
Encodes (some encoder) v r = encoder v ≡ r

-- A key that is one of the list.
abbrev pub IsOneOf : List String → String → Type 0
IsOneOf [] k = ⊥
IsOneOf (j ∷ ks) k = (k ≡ j) ⊎ IsOneOf ks k

-- A key that is in the list or that meets the rule.
abbrev pub IsRefused : Option (List String) → Option (String → Bool) → String → Type 0
IsRefused none none k = ⊥
IsRefused none (some rule) k = rule k ≡ true
IsRefused (some fields) none k = IsOneOf fields k
IsRefused (some fields) (some rule) k = IsOneOf fields k ⊎ (rule k ≡ true)

module _ {V : Type 0} (ignore_fields : Option (List String)) (ignore_rule : Option (String → Bool))
    (encoder : Option (V → Result V)) where
  -- What a dictionary is to become: an entry whose key is refused is left out whatever its value, the
  -- value of another is encoded, and the first encoding that does not return is what comes of it all.
  pub data Filtered : Dict V → Result (Dict V) → Type 0 where
    empty : Filtered [] (ok [])
    left_out :
        {k : String} {v : V} {d : Dict V} {r : Result (Dict V)}
        → IsRefused ignore_fields ignore_rule k
        → Filtered d r
        → Filtered ((k, v) ∷ d) r
    stays :
        {k : String} {v w : V} {d out : Dict V}
        → ¬ IsRefused ignore_fields ignore_rule k
        → Encodes encoder v (ok w)
        → Filtered d (ok out)
        → Filtered ((k, v) ∷ d) (ok ((k, w) ∷ out))
    fails :
        {k : String} {v : V} {d : Dict V} {e : Exn}
        → ¬ IsRefused ignore_fields ignore_rule k
        → Encodes encoder v (raised e)
        → Filtered ((k, v) ∷ d) (raised e)
    hangs :
        {k : String} {v : V} {d : Dict V}
        → ¬ IsRefused ignore_fields ignore_rule k
        → Encodes encoder v running
        → Filtered ((k, v) ∷ d) running
    fails_later :
        {k : String} {v : V} {d : Dict V} {e : Exn} (w : V)
        → ¬ IsRefused ignore_fields ignore_rule k
        → Encodes encoder v (ok w)
        → Filtered d (raised e)
        → Filtered ((k, v) ∷ d) (raised e)
    hangs_later :
        {k : String} {v : V} {d : Dict V} (w : V)
        → ¬ IsRefused ignore_fields ignore_rule k
        → Encodes encoder v (ok w)
        → Filtered d running
        → Filtered ((k, v) ∷ d) running

is_in-true : (k : String) (ks : List String) → is_in k ks ≡ true → IsOneOf ks k
unfolding is_in
is_in-true k [] h = absurd (cc h)
is_in-true k (j ∷ ks) h = elim (Bool-cases (k === j)) [
  | inl e ↦ inl ((===_iff k j).0 e)
  | inr e ↦ inr (is_in-true k ks (ground arith))
]

is_in-false : (k : String) (ks : List String) → is_in k ks ≡ false → ¬ IsOneOf ks k
unfolding is_in
is_in-false k [] h m = m
is_in-false k (j ∷ ks) h (inl e) = ground (arith, ===_iff k j)
is_in-false k (j ∷ ks) h (inr m) = is_in-false k ks (ground arith) m

is_ignored-true :
    (fields : Option (List String)) (rule : Option (String → Bool)) (k : String)
    → is_ignored fields rule k ≡ true
    → IsRefused fields rule k
unfolding is_ignored is_in
is_ignored-true none none k h = cc h
is_ignored-true none (some rule) k h = h
is_ignored-true (some fields) none k h = is_in-true k fields (ground arith)
is_ignored-true (some fields) (some rule) k h = elim (Bool-cases (is_in k fields)) [
  | inl e ↦ inl (is_in-true k fields e)
  | inr e ↦ inr (ground arith)
]

is_ignored-false :
    (fields : Option (List String)) (rule : Option (String → Bool)) (k : String)
    → is_ignored fields rule k ≡ false
    → ¬ IsRefused fields rule k
unfolding is_ignored is_in
is_ignored-false none none k h r = r
is_ignored-false none (some rule) k h r = cc (h, r)
is_ignored-false (some fields) none k h r = is_in-false k fields (ground arith) r
is_ignored-false (some fields) (some rule) k h (inl m) = is_in-false k fields (ground arith) m
is_ignored-false (some fields) (some rule) k h (inr r) = ground arith

encoded-Encodes :
    {V : Type 0} (encoder : Option (V → Result V)) (v : V) → Encodes encoder v (encoded encoder v)
unfolding encoded
encoded-Encodes none v = refl
encoded-Encodes (some encoder) v = refl

module _ {V : Type 0} (ignore_fields : Option (List String)) (ignore_rule : Option (String → Bool))
    (encoder : Option (V → Result V)) where
  -- The entry stays, with its value's encoding and what comes of the others at their outcomes.
  stays_with :
      (k : String) (v : V) (d : Dict V) (r : Result V) (s : Result (Dict V))
      → ¬ IsRefused ignore_fields ignore_rule k
      → Encodes encoder v r
      → Filtered ignore_fields ignore_rule encoder d s
      → Filtered ignore_fields ignore_rule encoder
          ((k, v) ∷ d)
          (bind r λ w. bind s λ out. ok ((k, w) ∷ out))
  stays_with k v d (ok w) (ok out) n e f = stays n e f
  stays_with k v d (ok w) (raised x) n e f = fails_later w n e f
  stays_with k v d (ok w) running n e f = hangs_later w n e f
  stays_with k v d (raised x) s n e f = fails n e
  stays_with k v d running s n e f = hangs n e

  encode_all-Filtered :
      (d : Dict V)
      → Filtered ignore_fields ignore_rule encoder d
          (encode_all (encoded encoder) (kept (is_ignored ignore_fields ignore_rule) d))
  unfolding encode_all kept
  encode_all-Filtered [] = empty
  encode_all-Filtered ((k, v) ∷ d) = elim (Bool-cases (is_ignored ignore_fields ignore_rule k)) [
    | inl e ↦
        rw (e) (left_out (is_ignored-true ignore_fields ignore_rule k e) (encode_all-Filtered d))
    | inr e ↦ rw (e) (
        stays_with k v d (encoded encoder v) _ (is_ignored-false ignore_fields ignore_rule k e)
          (encoded-Encodes encoder v) (encode_all-Filtered d))
  ]

  dict_factory-kept :
      (d : Dict V)
      → NodupKeys d
      → dict_factory ignore_fields ignore_rule encoder d
        ≡ encode_all (encoded encoder) (kept (is_ignored ignore_fields ignore_rule) d)
  unfolding dict_factory
  dict_factory-kept d u =
      let ignored = is_ignored ignore_fields ignore_rule in
      let encode = encoded encoder in
      filter_into-kept ignored encode [] d u (empty-Fresh V d)
      ∙ prepend-nil ignored encode (encode_all encode (kept ignored d))

  -- On a dictionary, whose keys are distinct, `dict_factory` leaves out the entries whose key is in the
  -- list or meets the rule, and gives the others in their order with the encoder's values, or their
  -- own where there is no encoder; it raises what the first of those encodings that raises does.
  pub dict_factory-Filtered :
      (d : Dict V)
      → NodupKeys d
      → Filtered ignore_fields ignore_rule encoder d
          (dict_factory ignore_fields ignore_rule encoder d)
  dict_factory-Filtered d u = rw (dict_factory-kept d u) (encode_all-Filtered d)
