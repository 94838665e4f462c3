-- ===== src/Contrib/Cloud/Favorite.antt =====
-- The choice of a favourite (lobbyboy/contrib/provider: `_ask_user_customize_server`).
use lobbyboy.Base.{◌≡◌, refl, ap, ◌∙◌, ℕ, suc, true, String, ◌<>◌, List, [], ◌∷◌, some, get_elem?}
use lobbyboy.Act.{ok, Act, follow-returned}
use lobbyboy.Text.Split.{split, split_free, split_at, is_free}
use lobbyboy.World.{Channel}
use lobbyboy.Contrib.Host.{Host}
use lobbyboy.Contrib.Cloud.{Choice, three_parts, item, on_choice, choose, ask_user_customize}

abbrev pub colon : String → String
colon s = String.◌∷◌ ":" s

-- `f"{region}:{plan}:{image}"`
abbrev pub favorite : String → String → String → String
favorite a b c = a <> colon (b <> colon c)

split-favorite :
    (a b c : String)
    → is_free b':' a ≡ true
    → is_free b':' b ≡ true
    → is_free b':' c ≡ true
    → split b':' (favorite a b c) ≡ a ∷ b ∷ c ∷ []
split-favorite a b c p q r =
    split_at b':' a ":" (b <> colon c) p refl
    ∙ ap (λ (l : List String). a ∷ l)
        (split_at b':' b ":" c q refl ∙ ap (λ (l : List String). b ∷ l) (split_free b':' c r))

chosen :
    {X : Type 0} (options : List String) (n : ℕ) (option : String) (y : X)
    → get_elem? options n ≡ some option
    → item options n y ≡ (ok option, y)
unfolding item
chosen options n option y f = rw (item, f) refl

parts :
    {X : Type 0} (ps : List String) (a b c : String) (y : X)
    → ps ≡ a ∷ b ∷ c ∷ []
    → three_parts ps y ≡ (ok (a, b, c), y)
unfolding three_parts
parts ps a b c y e = rw (e) refl

module _ {X : Type 0} (host : Host X) where
  -- When the user chooses a favourite, by its line behind the first one, that is written as three
  -- texts with colons between them and none inside, these three are what
  -- `_ask_user_customize_server` returns, and the user is asked nothing more.
  pub ask_user_customize-favorite :
      (channel : Channel) (manual_option ask_prompt : String) (favorites : List String)
      (manually : Act X Choice) (x y : X) (n : ℕ) (a b c : String)
      → choose host channel (manual_option ∷ favorites) ask_prompt x ≡ (ok (suc n), y)
      → get_elem? favorites n ≡ some (favorite a b c)
      → is_free b':' a ≡ true
      → is_free b':' b ≡ true
      → is_free b':' c ≡ true
      → ask_user_customize host channel manual_option ask_prompt favorites manually x
        ≡ (ok (a, b, c), y)
  unfolding ask_user_customize on_choice
  ask_user_customize-favorite channel manual_option ask_prompt favorites manually x y n a b c e f p
        q r =
      let options = manual_option ∷ favorites in
      follow-returned (choose host channel options ask_prompt) _ x y (suc n) e
      ∙ (follow-returned (item options (suc n)) (on_choice host manually (suc n)) y y
            (favorite a b c) (chosen options (suc n) (favorite a b c) y f)
          ∙ parts (split b':' (favorite a b c)) a b c y (split-favorite a b c p q r))
