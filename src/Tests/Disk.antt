-- ===== src/Tests/Disk.antt =====
-- Key files on a disk that is a function from paths to texts.
use mathlib.Core.Option
use lobbyboy.Base.{
  ◌≡◌, ◌≢◌, refl, sym, Bool, true, false, ◌&&◌, String, List, [], ◌∷◌, Option, none, some, ◌<>◌,
  ◌===◌, ===_iff, if◌then◌else◌, Bool-cases, inl, inr, arith,
}
use lobbyboy.Act.{ok, pure}
use lobbyboy.Paths.{FilePath}
use lobbyboy.KeyFiles.{
  Files, rsa, file_name, private_key_file, public_key_file, confirm_ssh_key_pair,
  generate_ssh_key_pair,
}
use lobbyboy.KeyFiles.Kept.{is_there, IsDisk, confirm_ssh_key_pair-kept}

abbrev Disk : Type 0
Disk = FilePath → Option String

same_parts : List String → List String → Bool
same_parts [] [] = true
same_parts [] (q ∷ qs) = false
same_parts (p ∷ ps) [] = false
same_parts (p ∷ ps) (q ∷ qs) = (p === q) && same_parts ps qs

unfoldable pub same_path : FilePath → FilePath → Bool
unfolding same_parts
same_path p q = (p.root === q.root) && same_parts p.parts q.parts

same_parts_self : (ps : List String) → same_parts ps ps ≡ true
unfolding same_parts
same_parts_self [] = refl
same_parts_self (p ∷ ps) = ground (arith, ===_iff p p, same_parts_self ps)

same_parts-true : (ps qs : List String) → same_parts ps qs ≡ true → ps ≡ qs
unfolding same_parts
same_parts-true [] [] h = refl
same_parts-true [] (q ∷ qs) h = absurd cc
same_parts-true (p ∷ ps) [] h = absurd cc
same_parts-true (p ∷ ps) (q ∷ qs) h = ground (arith, ===_iff p q, same_parts-true ps qs)

pub same_path_self : (p : FilePath) → same_path p p ≡ true
unfolding same_path
same_path_self p = ground (arith, ===_iff p.root p.root, same_parts_self p.parts)

pub same_path-true : (p q : FilePath) → same_path p q ≡ true → p ≡ q
unfolding same_path
same_path-true p q h =
    let e : p.root ≡ q.root = ground (arith, ===_iff p.root q.root) in
    let f : p.parts ≡ q.parts = ground (arith, same_parts-true p.parts q.parts) in ground arith

abbrev put : FilePath → String → Disk → Disk
put p s x q = if same_path p q then some s else x q

abbrev public_file : String → FilePath
public_file name = record { root = "/"; parts = "home" ∷ (name <> ".pub") ∷ [] }

-- Another pair is generated when there is a public key.
abbrev new_pair : Bool → String × String
new_pair false = ("PRIVATE", "ssh-rsa PUBLIC")
new_pair true = ("OTHER", "ssh-rsa OTHER")

abbrev disk : Files Disk
disk = record {
  exists = λ p x. is_there (x p);
  read = λ p x. (ok (Option.get_or (x p) ""), x);
  write = λ p s x. (ok tt, put p s x);
  mkdir = λ p. pure tt;
  chmod = λ p mode. pure tt;
  generate = λ key_type bits x. (ok (new_pair (is_there (x (public_file "id_rsa")))), x);
}

put_here : (p : FilePath) (s : String) (x : Disk) → put p s x p ≡ some s
put_here p s x = rw (same_path_self p) refl

put_elsewhere : (p q : FilePath) (s : String) (x : Disk) → q ≢ p → put p s x q ≡ x q
put_elsewhere p q s x apart = elim (Bool-cases (same_path p q)) [
  | inl e ↦ absurd (apart (sym (same_path-true p q e)))
  | inr e ↦ rw (e) refl
]

disk-IsDisk : IsDisk disk (λ p x. x p)
disk-IsDisk = record {
  exists-contents = λ p x. refl;
  read-contents = λ p x s e. (x, rw (e) refl, λ q. refl);
  write-contents =
      λ p s x. (put p s x, refl, put_here p s x, λ q apart. put_elsewhere p q s x apart);
  mkdir-contents = λ p x. (x, refl, λ q. refl);
  chmod-contents = λ p mode x. (x, refl, λ q. refl);
  generate-contents = λ key_type bits x q. refl;
}

abbrev home : FilePath
home = record { root = "/"; parts = "home" ∷ [] }

abbrev blank : Disk
blank p = none

confirm_ssh_key_pair-kept_example :
    (z : Disk) × (confirm_ssh_key_pair disk home rsa none none
        (confirm_ssh_key_pair disk home rsa none none blank).1
      ≡ (ok ("PRIVATE", "ssh-rsa PUBLIC"), z))
unfolding private_key_file public_key_file file_name generate_ssh_key_pair confirm_ssh_key_pair
confirm_ssh_key_pair-kept_example =
    confirm_ssh_key_pair-kept disk (λ p x. x p) disk-IsDisk home rsa none none "PRIVATE"
      "ssh-rsa PUBLIC" blank (confirm_ssh_key_pair disk home rsa none none blank).1 (λ e. cc e) refl
      refl refl refl
