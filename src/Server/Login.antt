-- ===== src/Server/Login.antt =====
-- Who is let in by `check_auth_password` and `check_auth_publickey` (lobbyboy/server.py).

use mathlib.Core.List.{Mem, mem-cons_self, mem-cons_of_mem}
use lobbyboy.Base.{
  ◌≡◌, refl, sym, Bool, true, false, String, List, [], ◌∷◌, Option, none, some, ◌===◌, ===_iff, ◌↔◌,
  ◌⊎◌, inl, inr, Bool-cases, Option-cases, ◌∙◌, ap, ◌≢◌,
}
use lobbyboy.Base.Dict.{Dict, lookup}
use lobbyboy.Exceptions.{key_error}
use lobbyboy.Act.{Result, ok, raised, running, bind-ok}
use lobbyboy.Config.Types.{ConfigUser}
use lobbyboy.Config.Users.{auth_key_pairs, KeyPair, key_pair, not_a_pair}
use lobbyboy.Server.{
  Auth, auth_successful, check_auth_password, is_password, is_equal, check_auth_publickey, Keys,
  KeyClass, get_key_class, try_auth, try_pairs, tried,
}

is_equal-true :
    (password : String) (o : Option String) → is_equal password o ≡ true → o ≡ some password
unfolding is_equal
is_equal-true password none h = absurd cc
is_equal-true password (some p) h = ap some (sym ((===_iff password p).0 h))

is_password-true :
    (password : String) (o : Option ConfigUser)
    → is_password password o ≡ true
    → (user : ConfigUser) × (o ≡ some user) × (user.password ≡ some password)
unfolding is_password
is_password-true password none h = absurd cc
is_password-true password (some user) h = (user, refl, is_equal-true password user.password h)

true-is_equal :
    (password : String) (o : Option String) → o ≡ some password → is_equal password o ≡ true
unfolding is_equal
true-is_equal password o h = rw (h) ((===_iff password password).1 refl)

refused :
    (users : Dict ConfigUser) (username password : String)
    → is_password password (lookup username users) ≡ false
    → check_auth_password users username password ≢ auth_successful
unfolding check_auth_password
refused users username password e = rw (check_auth_password, e) (λ h. cc h)

-- A password lets a user in just when the configuration has the user with that password: a user that
-- is not there, or that has no password, is refused whatever is sent.
pub check_auth_password_exact :
    (users : Dict ConfigUser) (username password : String)
    → (check_auth_password users username password ≡ auth_successful) ↔ (
        (user : ConfigUser) × (lookup username users ≡ some user) × (user.password ≡ some password))
unfolding check_auth_password is_password
check_auth_password_exact users username password = (
  λ h. elim (Bool-cases (is_password password (lookup username users))) [
    | inl e ↦ is_password-true password (lookup username users) e
    | inr e ↦ absurd (refused users username password e h)
  ],
  λ (user, found, p).
      let e : is_password password (lookup username users) ≡ true =
        rw (found) (true-is_equal password user.password p) in
      rw (e) refl,
)

module _ {K : Type 0} (keys : Keys K) where
  -- What a pair has to be for a key to be accepted by it.
  pub record Accepts (key : K) (data_text : String) : Type 0 where
    pub cls : KeyClass
    pub accept_key : K
    pub class_of : get_key_class (keys.lower (keys.get_name key)) ≡ ok cls
    pub decoded_to : keys.from_data cls data_text ≡ ok accept_key
    pub same : keys.same_key key accept_key ≡ true

  try_auth-Accepts :
      (key : K) (key_str : String) → try_auth keys key key_str ≡ ok true → Accepts key key_str
  unfolding try_auth
  try_auth-Accepts key key_str h =
      let (cls, e, f) = bind-ok (get_key_class (keys.lower (keys.get_name key))) _ h in
      let (accept_key, g, i) = bind-ok (keys.from_data cls key_str) _ f in
      let j : keys.same_key key accept_key ≡ true = cc i in
      record { cls = cls; accept_key = accept_key; class_of = e; decoded_to = g; same = j }

  try_pairs-other :
      (key : K) (key_type data_text : String) (pairs : List KeyPair)
      → (keys.get_name key === key_type) ≡ false
      → try_pairs keys key (key_pair key_type data_text ∷ pairs) ≡ try_pairs keys key pairs
  unfolding try_pairs
  try_pairs-other key key_type data_text pairs e = rw (e) refl

  try_pairs-same :
      (key : K) (key_type data_text : String) (pairs : List KeyPair)
      → (keys.get_name key === key_type) ≡ true
      → try_pairs keys key (key_pair key_type data_text ∷ pairs)
        ≡ tried keys (try_auth keys key data_text) (try_pairs keys key pairs)
  unfolding try_pairs
  try_pairs-same key key_type data_text pairs e = rw (e) refl

  tried-successful :
      (r : Result Bool) (rest : Result Auth)
      → tried keys r rest ≡ ok auth_successful
      → (r ≡ ok true) ⊎ (rest ≡ ok auth_successful)
  unfolding tried
  tried-successful (ok true) rest h = inl refl
  tried-successful (ok false) rest h = inr h
  tried-successful (raised e) rest h = absurd cc
  tried-successful running rest h = absurd cc

  abbrev IsAccepted : K → List KeyPair → Type 0
  IsAccepted key pairs =
      (data_text : String) × Mem (key_pair (keys.get_name key) data_text) pairs
      × Accepts key data_text

  later :
      (key : K) (pair : KeyPair) (pairs : List KeyPair)
      → IsAccepted key pairs
      → IsAccepted key (pair ∷ pairs)
  later key pair pairs (data_text, m, a) = (data_text, mem-cons_of_mem pair m, a)

  try_pairs-Accepts :
      (key : K) (pairs : List KeyPair)
      → try_pairs keys key pairs ≡ ok auth_successful
      → IsAccepted key pairs
  unfolding try_pairs
  try_pairs-Accepts key [] h = absurd cc
  try_pairs-Accepts key (not_a_pair ∷ pairs) h = absurd cc
  try_pairs-Accepts key (key_pair key_type data_text ∷ pairs) h =
      elim (Bool-cases (keys.get_name key === key_type)) [
        | inl e ↦
            let h' = sym (try_pairs-same key key_type data_text pairs e) ∙ h in
            elim (tried-successful (try_auth keys key data_text) (try_pairs keys key pairs) h') [
              | inl f ↦ (
                data_text,
                rw ((===_iff (keys.get_name key) key_type).0 e) mem-cons_self,
                try_auth-Accepts key data_text f,
              )
              | inr f ↦
                  later key (key_pair key_type data_text) pairs (try_pairs-Accepts key pairs f)
            ]
        | inr e ↦
            later key (key_pair key_type data_text) pairs (
              try_pairs-Accepts key pairs
                (sym (try_pairs-other key key_type data_text pairs e) ∙ h))
      ]

  unknown_user :
      (users : Dict ConfigUser) (username : String) (key : K)
      → lookup username users ≡ none
      → check_auth_publickey keys users username key ≡ raised key_error
  unfolding check_auth_publickey
  unknown_user users username key e = rw (e) refl

  known_user :
      (users : Dict ConfigUser) (username : String) (key : K) (user : ConfigUser)
      → lookup username users ≡ some user
      → check_auth_publickey keys users username key ≡ try_pairs keys key (auth_key_pairs user)
  unfolding check_auth_publickey
  known_user users username key user e = rw (e) refl

  -- A public key that is accepted for a name belongs to a configured user of that name: among the
  -- user's authorized keys is one of the key's type whose data the class of the type decodes to an
  -- equal key.
  pub check_auth_publickey_sound :
      (users : Dict ConfigUser) (username : String) (key : K)
      → check_auth_publickey keys users username key ≡ ok auth_successful
      → (user : ConfigUser) × (lookup username users ≡ some user)
        × (data_text : String) × Mem (key_pair (keys.get_name key) data_text) (auth_key_pairs user)
        × Accepts key data_text
  unfolding check_auth_publickey
  check_auth_publickey_sound users username key h = elim (Option-cases (lookup username users)) [
    | inl e ↦ absurd (cc (sym (unknown_user users username key e) ∙ h))
    | inr (user, e) ↦
        let (data_text, m, a) =
          try_pairs-Accepts key (auth_key_pairs user)
            (sym (known_user users username key user e) ∙ h) in
        (user, e, data_text, m, a)
  ]
