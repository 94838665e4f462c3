-- ===== src/KeyFiles/Kept.antt =====
-- `confirm_ssh_key_pair` (lobbyboy/utils.py) over a disk that keeps what is written.

use lobbyboy.Base.{
  ◌≡◌, ◌≢◌, refl, sym, ap, ◌∙◌, ◌==◌, ℕ, Bool, true, false, ◌&&◌, String, Option, none, some,
  Bool-cases, inl, inr,
}
use lobbyboy.Act.{
  Result, ok, raised, running, Act, follow-returned, follow-raised, follow-running, ◌>>=◌, ending,
  returned, threw, still_running,
}
use lobbyboy.Paths.{FilePath}
use lobbyboy.KeyFiles.{
  KeyType, rsa, dss, ecdsa, ed25519, length_or_default, generate_for, Files, file_name,
  private_key_file, public_key_file, is_given, read_if, check_loaded, try_load_key_from_file,
  loaded_or, confirm_ssh_key_pair, generate_ssh_key_pair, write_key_to_file, write_at, write_pair,
}

abbrev pub is_there : Option String → Bool
is_there none = false
is_there (some s) = true

-- What the calls do to the contents of the files: a key pair is generated without a file.
pub record IsDisk {X : Type 0} (files : Files X) (contents : FilePath → X → Option String)
    : Type 0 where
  pub exists-contents : (p : FilePath) (x : X) → files.exists p x ≡ is_there (contents p x)
  pub read-contents :
      (p : FilePath) (x : X) (s : String)
      → contents p x ≡ some s
      → (y : X) × (files.read p x ≡ (ok s, y)) × ((q : FilePath) → contents q y ≡ contents q x)
  pub write-contents :
      (p : FilePath) (s : String) (x : X)
      → (y : X) × (files.write p s x ≡ (ok tt, y))
        × (contents p y ≡ some s)
        × ((q : FilePath) → q ≢ p → contents q y ≡ contents q x)
  pub mkdir-contents :
      (p : FilePath) (x : X)
      → (y : X) × (files.mkdir p x ≡ (ok tt, y)) × ((q : FilePath) → contents q y ≡ contents q x)
  pub chmod-contents :
      (p : FilePath) (mode : ℕ) (x : X)
      → (y : X) × (files.chmod p mode x ≡ (ok tt, y))
        × ((q : FilePath) → contents q y ≡ contents q x)
  pub generate-contents :
      (key_type : KeyType) (bits : ℕ) (x : X) (q : FilePath)
      → contents q (files.generate key_type bits x).1 ≡ contents q x

module _ {X : Type 0} (files : Files X) (contents : FilePath → X → Option String)
    (disk : IsDisk files contents) where
  -- The text that a read of a file gives, and no text where there is none.
  abbrev text_at : Option String → String
  text_at none = ""
  text_at (some s) = s

  read_if-contents :
      (p : FilePath) (x : X) (o : Option String)
      → contents p x ≡ o
      → (y : X) × (read_if files p x ≡ (ok (text_at o), y))
        × ((q : FilePath) → contents q y ≡ contents q x)
  unfolding read_if
  read_if-contents p x none e = (x, rw (disk.exists-contents p x, e) refl, λ q. refl)
  read_if-contents p x (some s) e =
      let (y, f, same) = disk.read-contents p x s e in
      (y, rw (disk.exists-contents p x, e, f) refl, same)

  check_loaded-pure :
      (pri_key pub_key : String) (x : X)
      → check_loaded files false (pri_key, pub_key) x ≡ (ok (pri_key, pub_key), x)
  unfolding check_loaded
  check_loaded-pure pri_key pub_key x = elim (Bool-cases (is_given pri_key && is_given pub_key)) [
    | inl e ↦ rw (e) refl
    | inr e ↦ rw (e) refl
  ]

  -- A load reads both files and changes neither.
  load-contents :
      (path : FilePath) (key_type : KeyType) (key_name : Option String) (x : X)
      (o o' : Option String)
      → contents (private_key_file path (file_name key_type key_name)) x ≡ o
      → contents (public_key_file path (file_name key_type key_name)) x ≡ o'
      → (y : X) × (try_load_key_from_file files path key_type false key_name x
          ≡ (ok (text_at o, text_at o'), y))
        × ((q : FilePath) → contents q y ≡ contents q x)
  unfolding try_load_key_from_file check_loaded
  load-contents path key_type key_name x o o' e e' =
      let (y, f, same) =
        read_if-contents (private_key_file path (file_name key_type key_name)) x o e in
      let public = public_key_file path (file_name key_type key_name) in
      let (z, g, same') = read_if-contents public y o' (same public ∙ e') in
      (
        z,
        follow-returned (read_if files (private_key_file path (file_name key_type key_name))) _ x y
              (text_at o) f
            ∙ (follow-returned (read_if files public)
                  (λ pub_key. check_loaded files false (text_at o, pub_key)) y z (text_at o') g
                ∙ check_loaded-pure (text_at o) (text_at o') z),
        λ q. same' q ∙ same q,
      )

  write_pair-contents :
      (private public : FilePath) (pri_key pub_key : String) (x : X)
      → private ≢ public
      → (y : X) × (write_pair files private public (pri_key, pub_key) x
          ≡ (ok (pri_key, pub_key), y))
        × (contents private y ≡ some pri_key)
        × (contents public y ≡ some pub_key)
  unfolding write_pair
  write_pair-contents private public pri_key pub_key x apart =
      let (a, e, p, _) = disk.write-contents private pri_key x in
      let (b, f, same) = disk.chmod-contents private 0o600 a in
      let (c, g, q, keeps) = disk.write-contents public pub_key b in
      let (d, h, same') = disk.chmod-contents public 0o600 c in
      (
        d,
        rw (e, f, g, h) refl,
        same' private ∙ (keeps private apart ∙ (same private ∙ p)),
        same' public ∙ q,
      )

  -- The pair that both files hold is the pair that is given, and nothing is written.
  confirm-loaded :
      (path : FilePath) (key_type : KeyType) (key_len : Option ℕ) (key_name : Option String) (x : X)
      (pri_key pub_key : String)
      → contents (private_key_file path (file_name key_type key_name)) x ≡ some pri_key
      → contents (public_key_file path (file_name key_type key_name)) x ≡ some pub_key
      → is_given pri_key ≡ true
      → is_given pub_key ≡ true
      → (y : X) × (confirm_ssh_key_pair files path key_type key_len key_name x
          ≡ (ok (pri_key, pub_key), y))
        × ((q : FilePath) → contents q y ≡ contents q x)
  unfolding confirm_ssh_key_pair loaded_or
  confirm-loaded path key_type key_len key_name x pri_key pub_key e e' p q =
      let (y, f, same) =
        load-contents path key_type key_name x (some pri_key) (some pub_key) e e' in
      (y, rw (f, p, q) refl, same)

  write_at-contents :
      (private public : FilePath) (pri_key pub_key : String) (x : X)
      → private ≢ public
      → contents private x ≡ none
      → (y : X) × (write_at files private public (pri_key, pub_key) x ≡ (ok (pri_key, pub_key), y))
        × (contents private y ≡ some pri_key)
        × (contents public y ≡ some pub_key)
  unfolding write_at
  write_at-contents private public pri_key pub_key x apart e =
      let (y, f, p, q) = write_pair-contents private public pri_key pub_key x apart in
      (y, rw (disk.exists-contents private x, e) f, p, q)

  write-contents :
      (path : FilePath) (key_type : KeyType) (key_name : Option String) (pri_key pub_key : String)
      (x : X)
      → private_key_file path (file_name key_type key_name)
        ≢ public_key_file path (file_name key_type key_name)
      → contents (private_key_file path (file_name key_type key_name)) x ≡ none
      → (y : X) × (write_key_to_file files (pri_key, pub_key) key_type path key_name x
          ≡ (ok (pri_key, pub_key), y))
        × (contents (private_key_file path (file_name key_type key_name)) y ≡ some pri_key)
        × (contents (public_key_file path (file_name key_type key_name)) y ≡ some pub_key)
  unfolding write_key_to_file
  write-contents path key_type key_name pri_key pub_key x apart e =
      let (y, f, same) = disk.mkdir-contents path x in
      let private = private_key_file path (file_name key_type key_name) in
      let public = public_key_file path (file_name key_type key_name) in
      let (z, g, p, q) =
        write_at-contents private public pri_key pub_key y apart (same private ∙ e) in
      (
        z,
        follow-returned (files.mkdir path) (λ _. write_at files private public (pri_key, pub_key)) x
              y tt f
            ∙ g,
        p,
        q,
      )

  loaded_or-none :
      (pub_key : String) (otherwise : Act X (String × String)) (x : X)
      → loaded_or files ("", pub_key) otherwise x ≡ otherwise x
  unfolding loaded_or
  loaded_or-none pub_key otherwise x = refl

  generate_for-contents :
      (key_type : KeyType) (bits : ℕ) (x : X) (q : FilePath)
      → contents q (generate_for files key_type bits x).1 ≡ contents q x
  unfolding generate_for
  generate_for-contents rsa bits x q = disk.generate-contents rsa bits x q
  generate_for-contents dss bits x q = disk.generate-contents dss bits x q
  generate_for-contents ecdsa bits x q = disk.generate-contents ecdsa bits x q
  generate_for-contents ed25519 bits x q = refl

  generate_ssh_key_pair-contents :
      (key_type : KeyType) (key_len : Option ℕ) (x : X) (q : FilePath)
      → contents q (generate_ssh_key_pair files key_type key_len x).1 ≡ contents q x
  unfolding generate_ssh_key_pair
  generate_ssh_key_pair-contents key_type key_len x q =
      elim (Bool-cases (length_or_default key_type key_len == 0)) [
        | inl e ↦ rw (e) refl
        | inr e ↦ rw (e) (generate_for-contents key_type (length_or_default key_type key_len) x q)
      ]

  -- The call that finds no private key, up to the generation.
  confirm_missing :
      (path : FilePath) (key_type : KeyType) (key_len : Option ℕ) (key_name : Option String) (x : X)
      → contents (private_key_file path (file_name key_type key_name)) x ≡ none
      → (a : X) × (confirm_ssh_key_pair files path key_type key_len key_name x
          ≡ (generate_ssh_key_pair files key_type key_len
                >>= (λ pair. write_key_to_file files pair key_type path key_name))
              a)
        × (contents (private_key_file path (file_name key_type key_name)) a ≡ none)
  unfolding confirm_ssh_key_pair
  confirm_missing path key_type key_len key_name x missing =
      let o = contents (public_key_file path (file_name key_type key_name)) x in
      let (a, f, same) = load-contents path key_type key_name x none o missing refl in
      let make : Act X (String × String) =
        generate_ssh_key_pair files key_type key_len
        >>= (λ pair. write_key_to_file files pair key_type path key_name) in
      (
        a,
        follow-returned (try_load_key_from_file files path key_type false key_name)
              (λ loaded. loaded_or files loaded make) x a ("", text_at o) f
            ∙ loaded_or-none (text_at o) make a,
        same (private_key_file path (file_name key_type key_name)) ∙ missing,
      )

  -- What a generation and the write behind it leave in the files when they return.
  generated-contents :
      (path : FilePath) (key_type : KeyType) (key_len : Option ℕ) (key_name : Option String)
      (pri_key pub_key : String) (a y : X)
      → private_key_file path (file_name key_type key_name)
        ≢ public_key_file path (file_name key_type key_name)
      → contents (private_key_file path (file_name key_type key_name)) a ≡ none
      → (generate_ssh_key_pair files key_type key_len
            >>= (λ pair. write_key_to_file files pair key_type path key_name))
          a
        ≡ (ok (pri_key, pub_key), y)
      → (contents (private_key_file path (file_name key_type key_name)) y ≡ some pri_key)
        × (contents (public_key_file path (file_name key_type key_name)) y ≡ some pub_key)
  generated-contents path key_type key_len key_name pri_key pub_key a y apart missing h =
      let private = private_key_file path (file_name key_type key_name) in
      let public = public_key_file path (file_name key_type key_name) in
      let make = generate_ssh_key_pair files key_type key_len in
      let write : String × String → Act X (String × String) =
        λ pair. write_key_to_file files pair key_type path key_name in
      let b = (make a).1 in
      elim (ending (make a).0) [
        | returned (pri, pub') e ↦
            let made : make a ≡ (ok (pri, pub'), b) = ap (λ r. (r, b)) e in
            let (z, f, p, q) =
              write-contents path key_type key_name pri pub' b apart
                (generate_ssh_key_pair-contents key_type key_len a private ∙ missing) in
            let same : (ok (pri, pub'), z) ≡ (ok (pri_key, pub_key), y) =
              sym f ∙ (sym (follow-returned make write a b (pri, pub') made) ∙ h) in
            let there : z ≡ y = ap (λ (c : Result (String × String) × X). c.1) same in
            let pair : ok (pri, pub') ≡ ok (pri_key, pub_key) =
              ap (λ (c : Result (String × String) × X). c.0) same in
            let pri_is : pri ≡ pri_key = cc pair in
            let pub_is : pub' ≡ pub_key = cc pair in
            (
              ap (contents private) (sym there) ∙ (p ∙ ap some pri_is),
              ap (contents public) (sym there) ∙ (q ∙ ap some pub_is),
            )
        | threw v e ↦
            let made : make a ≡ (raised v, b) = ap (λ r. (r, b)) e in
            let same : (raised v, b) ≡ (ok (pri_key, pub_key), y) =
              sym (follow-raised make write a b v made) ∙ h in
            absurd (cc (ap (λ (c : Result (String × String) × X). c.0) same))
        | still_running e ↦
            let made : make a ≡ (running, b) = ap (λ r. (r, b)) e in
            let same : (running, b) ≡ (ok (pri_key, pub_key), y) =
              sym (follow-running make write a b made) ∙ h in
            absurd (cc (ap (λ (c : Result (String × String) × X). c.0) same))
      ]

  -- Over a disk that keeps what is written, where the private key's file is missing and the two files
  -- are distinct: when a call of `confirm_ssh_key_pair` returns a pair of texts that are not empty, a
  -- call in the state that it leaves returns the same pair, whatever a generation would give then.
  pub confirm_ssh_key_pair-kept :
      (path : FilePath) (key_type : KeyType) (key_len : Option ℕ) (key_name : Option String)
      (pri_key pub_key : String) (x y : X)
      → private_key_file path (file_name key_type key_name)
        ≢ public_key_file path (file_name key_type key_name)
      → contents (private_key_file path (file_name key_type key_name)) x ≡ none
      → confirm_ssh_key_pair files path key_type key_len key_name x ≡ (ok (pri_key, pub_key), y)
      → is_given pri_key ≡ true
      → is_given pub_key ≡ true
      → (z : X) × (confirm_ssh_key_pair files path key_type key_len key_name y
          ≡ (ok (pri_key, pub_key), z))
  confirm_ssh_key_pair-kept path key_type key_len key_name pri_key pub_key x y apart missing h p q =
      let (a, e, missing') = confirm_missing path key_type key_len key_name x missing in
      let (kept, kept') =
        generated-contents path key_type key_len key_name pri_key pub_key a y apart missing'
          (sym e ∙ h) in
      let (z, i, _) =
        confirm-loaded path key_type key_len key_name y pri_key pub_key kept kept' p q in
      (z, i)
