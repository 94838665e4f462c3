-- ===== src/Contrib/Vultr/Chosen.antt =====
-- What `create_server` of lobbyboy/contrib/provider/vultr.py asks the cloud for.
use lobbyboy.Base.{
  ◌≡◌, refl, sym, ap, ◌∙◌, ℕ, suc, true, String, codes, List, ◌∷◌, some, get_elem?, Option-cases,
  inl, inr,
}
use lobbyboy.Act.{Result, ok, Act, ◌>>=◌, Triple, follow-Triple, after-Triple, follow-returned}
use lobbyboy.Text.Digits.{int_of}
use lobbyboy.Text.Split.{is_free}
use lobbyboy.Paths.{FilePath}
use lobbyboy.Config.Types.{ServerMeta}
use lobbyboy.World.{Channel}
use lobbyboy.Contrib.Host.{
  Host, Base, save_raw_server, finish, tell, time_process, port_is_open, server_meta,
}
use lobbyboy.Contrib.Cloud.{Choice, choose, prepare, wait_for_boot}
use lobbyboy.Contrib.Cloud.Favorite.{favorite, ask_user_customize-favorite}
use lobbyboy.Contrib.Vultr.{
  Client, Instance, ReqInstance, request, created_text, prepare_after_server_created,
  manually_create_new_node, ask_user_customize_server, create_keys, int_or_raise, instance_is_up,
  create_node, create_server,
}

int_or_raise-Triple :
    {X : Type 0} (s : String)
    → Triple {S = X} (λ _. Unit) (int_or_raise s) (λ n _. int_of (codes s) ≡ some n)
unfolding int_or_raise
int_or_raise-Triple s x u n h = elim (Option-cases (int_of (codes s))) [
  | inl e ↦ absurd (cc (rw (e, int_or_raise) at h))
  | inr (m, e) ↦
      let same : ok m ≡ ok n = rw (e, int_or_raise) at h in
      let number : m ≡ n = cc same in e ∙ ap some number
]

module _ {X : Type 0} (host : Host X) (client : Client X) where
  -- An instance was created in that region, on that plan and with the image of that number, and it is
  -- labelled with the name of the server.
  abbrev pub IsRequested : String → String → String → ServerMeta → Type 0
  IsRequested region_id plan_id image_id meta =
      (req : ReqInstance) × (z : X) × (i : Instance) × ((client.create_instance req z).0 ≡ ok i)
      × (req.region ≡ region_id)
      × (req.plan ≡ plan_id)
      × (int_of (codes image_id) ≡ some req.os_id)
      × (req.label ≡ meta.server_name)

  abbrev IsNamed : String → ServerMeta → X → Type 0
  IsNamed server_name meta y = meta.server_name ≡ server_name

  finish-IsNamed :
      (self : Base) (server_name : String) (workspace : FilePath) (ip : String)
      → Triple (λ _. Unit) (finish host self server_name workspace ip) (IsNamed server_name)
  unfolding finish server_meta
  finish-IsNamed self server_name workspace ip y u meta h =
      let made : server_meta (host.now y) self.name server_name workspace ip ≡ meta = cc h in
      ap (λ (m : ServerMeta). m.server_name) (sym made)

  prepare-IsNamed :
      (channel : Channel) (self : Base) (instance : Instance) (workspace : FilePath)
      (server_name : String)
      → Triple
          (λ _. Unit)
          (prepare_after_server_created host client channel self instance workspace server_name)
          (IsNamed server_name)
  unfolding prepare_after_server_created
  prepare-IsNamed channel self instance workspace server_name =
      let Q = IsNamed server_name in
      after-Triple Q (client.get_instance instance.id) _ λ i.
        after-Triple Q (tell host channel (created_text server_name i)) _ λ _.
          after-Triple Q (save_raw_server host i.contents workspace) _ λ _.
            after-Triple Q (wait_for_boot host channel server_name (port_is_open host i.main_ip 22))
              (λ _. finish host self server_name workspace i.main_ip)
              λ _. finish-IsNamed self server_name workspace i.main_ip

  node-IsRequested :
      (channel : Channel) (self : Base) (region_id plan_id image_id : String)
      (prepared : String × FilePath × List String)
      → Triple
          (λ _. Unit)
          (create_node host client channel self (region_id, plan_id, image_id) prepared)
          (λ meta _. IsRequested region_id plan_id image_id meta)
  unfolding create_node request
  node-IsRequested channel self region_id plan_id image_id (server_name, workspace, keys) =
      let Q : ServerMeta → X → Type 0 = λ meta _. IsRequested region_id plan_id image_id meta in
      after-Triple Q (tell host channel "Waiting for server to created...") _ λ _.
        after-Triple Q (create_keys host client server_name 0 keys) _ λ ids.
          follow-Triple Q (λ _. Unit) (λ n _. int_of (codes image_id) ≡ some n)
            (int_or_raise image_id) _ (int_or_raise-Triple image_id)
            λ os_id x number.
              let req = request region_id plan_id os_id server_name ids in
              follow-Triple Q (λ _. Unit)
                (λ i _. (z : X) × ((client.create_instance req z).0 ≡ ok i))
                (client.create_instance req) _ (λ z _ i e. (z, e))
                (λ i y (z, e).
                  let rest : Act X ServerMeta =
                    prepare_after_server_created host client channel self i workspace server_name in
                  after-Triple Q
                    (time_process host channel "instance is up" (instance_is_up host client i.id) 5)
                    (λ _. rest)
                    (λ _ y' u meta h. (
                      req,
                      z,
                      i,
                      e,
                      refl,
                      refl,
                      number,
                      sym (prepare-IsNamed channel self i workspace server_name y' tt meta h),
                    ))
                    y tt)
                x tt

  -- When the user chooses a favourite of Vultr, by its line behind the first one, that is written as
  -- three texts with colons between them and none inside, and `create_server` returns a server, then
  -- the cloud has created an instance in the region of the first text, on the plan of the second and
  -- with the image whose number is the third, under the name of that server.
  pub favorite_is_created :
      (self : Base) (favorites : List String) (channel : Channel) (x y : X) (n : ℕ) (a b c : String)
      (meta : ServerMeta)
      → choose host channel
          ("Manually choose a new vultr to create.." ∷ favorites)
          "Please choose new vultr to create: "
          x
        ≡ (ok (suc n), y)
      → get_elem? favorites n ≡ some (favorite a b c)
      → is_free b':' a ≡ true
      → is_free b':' b ≡ true
      → is_free b':' c ≡ true
      → (create_server host client self favorites channel x).0 ≡ ok meta
      → IsRequested a b c meta
  unfolding create_server ask_user_customize_server
  favorite_is_created self favorites channel x y n a b c meta chosen found p q r made =
      let ask = ask_user_customize_server host client channel favorites in
      let rest : Choice → Act X ServerMeta =
        λ choice. prepare host channel self >>= create_node host client channel self choice in
      let asked : ask x ≡ (ok (a, b, c), y) =
        ask_user_customize-favorite host channel "Manually choose a new vultr to create.."
          "Please choose new vultr to create: " favorites
          (manually_create_new_node host client channel) x y n a b c chosen found p q r in
      let goes_on = follow-returned ask rest x y (a, b, c) asked in
      let made' : (rest (a, b, c) y).0 ≡ ok meta =
        ap (λ (s : Result ServerMeta × X). s.0) (sym goes_on) ∙ made in
      after-Triple (λ meta _. IsRequested a b c meta) (prepare host channel self)
        (create_node host client channel self (a, b, c)) (node-IsRequested channel self a b c) y tt
        meta made'
