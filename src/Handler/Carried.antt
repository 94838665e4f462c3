-- ===== src/Handler/Carried.antt =====
-- What a statement of `user_using` (lobbyboy/socket_handle.py) carries over in its two streams.
use mathlib.Core.List.{append_assoc, append-nil}
use lobbyboy.Base.{◌≡◌, refl, sym, ap, ◌∙◌, ℕ, [], ◌∷◌, ◌++◌, length}
use lobbyboy.Act.{Result, ok, raised, running, Act, Void, skip, follow, ◌>>=◌}
use lobbyboy.Text.Utf8.{Bytes}
use lobbyboy.Handler.Shell.{Line}
use lobbyboy.Handler.Stream.{
  View, Messages, heard, written, heard-append, written-append, Stays, Output, Unraised, Takes,
  Shows, Hears, Wrote, Calls, gave, failed,
}

-- With the calls that the messages have been written by.
module _ {X : Type 0} (view : View X) (line : Line X) (master : ℕ) where
  -- `os.write` was called with each of the messages, whole, and gave the length of its front.
  abbrev pub AreWritten : Messages → Type 0
  AreWritten [] = Unit
  AreWritten ((bs, lost) ∷ ms) =
      ((z : X) × ((line.write master (bs ++ lost) z).0 ≡ ok (length bs))) × AreWritten ms

  AreWritten-append : (ms ns : Messages) → AreWritten ms → AreWritten ns → AreWritten (ms ++ ns)
  AreWritten-append [] ns p q = q
  AreWritten-append ((bs, lost) ∷ ms) ns (w, p) q = (w, AreWritten-append ms ns p q)

  abbrev pub Input : X → X → Type 0
  Input x y =
      (ms : Messages) × AreWritten ms
      × (view.typed x ≡ heard ms ++ view.typed y)
      × (view.passed y ≡ view.passed x ++ written ms)

  abbrev pub Carried : X → X → Type 0
  Carried x y = Output view x y × Input x y

  -- A statement that carries whatever it does not end with an exception in the middle of.
  abbrev pub Carries : {A : Type 0} → Act X A → Type 0
  Carries m = (x : X) → Unraised view (m x).0 → Carried x (m x).1

  trans-Output : (x y z : X) → Output view x y → Output view y z → Output view x z
  trans-Output x y z (bs, a, b) (cs, c, d) = (
    bs ++ cs,
    a ∙ (ap (λ l. bs ++ l) c ∙ sym (append_assoc bs cs (view.said z))),
    d ∙ (ap (λ l. l ++ cs) b ∙ append_assoc (view.shown x) bs cs),
  )

  trans-Input : (x y z : X) → Input x y → Input y z → Input x z
  trans-Input x y z (ms, p, a, b) (ns, q, c, d) = (
    ms ++ ns,
    AreWritten-append ms ns p q,
    a
        ∙ (ap (λ l. heard ms ++ l) c
            ∙ (sym (append_assoc (heard ms) (heard ns) (view.typed z))
                ∙ ap (λ l. l ++ view.typed z) (sym (heard-append ms ns)))),
    d
        ∙ (ap (λ l. l ++ written ns) b
            ∙ (append_assoc (view.passed x) (written ms) (written ns)
                ∙ ap (λ l. view.passed x ++ l) (sym (written-append ms ns)))),
  )

  trans-Carried : (x y z : X) → Carried x y → Carried y z → Carried x z
  trans-Carried x y z p q = (trans-Output x y z p.0 q.0, trans-Input x y z p.1 q.1)

  pub Stays-Carried : (x y : X) → Stays view x y → Carried x y
  Stays-Carried x y (a, b, c, d) =
      (([], sym a, b ∙ sym (append-nil _)), ([], tt, sym c, d ∙ sym (append-nil _)))

  followed-Carries :
      {A B : Type 0} (r : Result A) (f : A → Act X B) (x s : X)
      → (Unraised view r → Carried x s)
      → ((a : A) → Carries (f a))
      → Unraised view (follow r f s).0
      → Carried x (follow r f s).1
  followed-Carries (ok a) f x s p q u = trans-Carried x s (f a s).1 (p (λ e h. cc h)) (q a s u)
  followed-Carries (raised v) f x s p q u = absurd (u v refl)
  followed-Carries running f x s p q u = p (λ e h. cc h)

  pub follow-Carries :
      {A B : Type 0} (m : Act X A) (f : A → Act X B)
      → Carries m
      → ((a : A) → Carries (f a))
      → Carries (m >>= f)
  follow-Carries m f p q x = followed-Carries (m x).0 f x (m x).1 (p x) q

  pub shown-Carried : (bs : Bytes) (x y z : X) → Takes view bs x y → Shows view bs y z → Carried x z
  shown-Carried bs x y z (a, b, c, d) (e, f, g, h) = (
    (bs, a ∙ ap (λ l. bs ++ l) (sym e), f ∙ ap (λ l. l ++ bs) b),
    ([], tt, sym (g ∙ c), (h ∙ d) ∙ sym (append-nil _)),
  )

  pub passed-Carried :
      (content : Bytes) (n : ℕ) (x y z : X)
      → (line.write master content y).0 ≡ ok n
      → Hears view content x y
      → Wrote view content n y z
      → Carried x z
  passed-Carried content n x y z made (a, b, c, d) (bs, lost, whole, len, (e, f, g, h)) = (
    ([], sym (e ∙ a), (f ∙ b) ∙ sym (append-nil _)),
    (
      (bs, lost) ∷ [],
      ((y, ap (λ bs. (line.write master bs y).0) (sym whole) ∙ (made ∙ ap ok (sym len))), tt),
      c
          ∙ (ap (λ l. l ++ view.typed y) whole
              ∙ (append_assoc bs lost (view.typed y)
                  ∙ (ap (λ l. bs ++ (lost ++ l)) (sym g) ∙ rw (append-nil, append_assoc) refl))),
      (h ∙ ap (λ l. l ++ bs) d) ∙ ap (λ l. view.passed x ++ l) (sym (append-nil _)),
    ),
  )

  -- A call whose value is dropped.
  pub dropped-Calls :
      {A : Type 0} (R : A → X → X → Type 0) (m : Act X A) (x : X) (p : Result A × X)
      → m x ≡ p
      → Calls view R x p
      → Calls view
          (λ (_ : Void) x y. (a : A) × ((m x).0 ≡ ok a) × R a x y)
          x
          (follow p.0 (λ _. skip) p.1)
  dropped-Calls R m x _ e (gave a y r) = gave tt y (a, ap (λ p. p.0) e, r)
  dropped-Calls R m x _ e (failed v y) = failed v y

  ended-Carried :
      {B : Type 0} (R : B → X → X → Type 0) (x y : X) (q : Result B × X)
      → Calls view R y q
      → ((b : B) (z : X) → R b y z → Carried x z)
      → Unraised view q.0
      → Carried x q.1
  ended-Carried R x y _ (gave b z r) carried u = carried b z r
  ended-Carried R x y _ (failed e z) carried u = absurd (u e refl)

  pub both-Carried :
      {A B : Type 0} (R : A → X → X → Type 0) (R' : A → B → X → X → Type 0) (x : X)
      (p : Result A × X) (f : A → Act X B)
      → Calls view R x p
      → ((a : A) (y : X) → R a x y → Calls view (R' a) y (f a y))
      → ((a : A) (b : B) (y z : X) → R a x y → R' a b y z → Carried x z)
      → Unraised view (follow p.0 f p.1).0
      → Carried x (follow p.0 f p.1).1
  both-Carried R R' x _ f (gave a y r) calls carried u =
      ended-Carried (R' a) x y (f a y) (calls a y r) (λ b z r'. carried a b y z r r') u
  both-Carried R R' x _ f (failed e y) calls carried u = absurd (u e refl)
