-- ===== src/Contrib/Host/Kept.antt =====
-- The file of a server's data (lobbyboy/provider.py: `save_raw_server` and `load_raw_server`), on a host
-- whose other calls leave it alone.

use lobbyboy.Base.{◌≡◌, ℕ, zero, suc, Bool, true, false, String, ◌<>◌, Option, some}
use lobbyboy.Act.{ok, Act, pure, gets, ◌>>=◌, ◌>>◌, Triple, follow-Triple}
use lobbyboy.Text.Utf8.{Bytes}
use lobbyboy.Paths.{FilePath}
use lobbyboy.Config.Json.{Raw}
use lobbyboy.World.{Channel}
use lobbyboy.Terminal.{str, ensure_bytes, send_with, send_to_channel, send_inline}
use lobbyboy.BaseProvider.{on_result, check_loop, give_up, time_process_action}
use lobbyboy.Text.Print.{decimal}
use lobbyboy.Contrib.Host.{Host, tell, time_process, port_is_open, is_zero}

module _ {X : Type 0} (contents : FilePath → X → Option Raw) where
  -- A statement that leaves every file of server data as it is, when it returns.
  abbrev pub Keeps : {A : Type 0} → Act X A → Type 0
  Keeps m =
      (p : FilePath) (r : Raw)
      → Triple (λ x. contents p x ≡ some r) m (λ _ x. contents p x ≡ some r)

  pub follow-Keeps :
      {A B : Type 0} (m : Act X A) (f : A → Act X B)
      → Keeps m
      → ((a : A) → Keeps (f a))
      → Keeps (m >>= f)
  follow-Keeps m f p q path r =
      follow-Triple (λ _ x. contents path x ≡ some r) (λ x. contents path x ≡ some r)
        (λ _ x. contents path x ≡ some r) m f (p path r) (λ a. q a path r)

  -- What is asked of the host: a file that is written holds its data, data is read as it was written,
  -- and the network, the sockets and the clock leave files alone.
  pub record IsKeeper (host : Host X) : Type 0 where
    pub write_json-contents :
        (p : FilePath) (r : Raw)
        → Triple (λ _. Unit) (host.write_json p r) (λ _ x. contents p x ≡ some r)
    pub read_json-contents :
        (p : FilePath) (r : Raw) (x : X) → contents p x ≡ some r → host.read_json p x ≡ (ok r, x)
    pub sendall-Keeps : (channel : Channel) (b : Bytes) → Keeps (host.net.sendall channel b)
    pub socket-Keeps : Keeps host.sockets.socket
    pub settimeout-Keeps : (s n : ℕ) → Keeps (host.sockets.settimeout s n)
    pub connect_ex-Keeps :
        (s : ℕ) (ip : String) (port : ℕ) → Keeps (host.sockets.connect_ex s ip port)
    pub close-Keeps : (s : ℕ) → Keeps (host.sockets.close s)
    pub sleep-Keeps : (n : ℕ) → Keeps (host.system.sleep n)

module _ {X : Type 0} (contents : FilePath → X → Option Raw) (host : Host X)
    (keeper : IsKeeper contents host) where
  pure-Keeps : {A : Type 0} (a : A) → Keeps contents (pure a)
  pure-Keeps a p r x h b e = h

  gets-Keeps : {A : Type 0} (f : X → A) → Keeps contents (gets f)
  gets-Keeps f p r x h b e = h

  send_text-Keeps :
      (channel : Channel) (s : String) → Keeps contents (send_to_channel host.net channel (str s))
  unfolding send_to_channel send_with ensure_bytes
  send_text-Keeps channel s = keeper.sendall-Keeps channel _

  inline-Keeps :
      (channel : Channel) (s : String) → Keeps contents (send_inline host.net channel (str s))
  unfolding send_inline send_with ensure_bytes
  inline-Keeps channel s = keeper.sendall-Keeps channel _

  on_result-Keeps :
      (channel : Channel) (start_at : ℕ) (res : Bool) (again : Act X Bool)
      → Keeps contents again
      → Keeps contents (on_result host.system host.net channel start_at res again)
  unfolding on_result
  on_result-Keeps channel start_at true again k =
      follow-Keeps contents (gets host.system.time) _ (gets-Keeps host.system.time) λ now.
        follow-Keeps contents
          (send_to_channel host.net channel
            (str ("OK(" <> host.system.elapsed start_at now <> "s).")))
          (λ _. pure true)
          (send_text-Keeps channel ("OK(" <> host.system.elapsed start_at now <> "s)."))
          λ _. pure-Keeps true
  on_result-Keeps channel start_at false again k = k

  check_loop-Keeps :
      (channel : Channel) (action otherwise : Act X Bool) (left interval start_at : ℕ)
      → Keeps contents action
      → Keeps contents otherwise
      → Keeps contents
          (check_loop host.system host.net channel action otherwise left interval start_at)
  unfolding check_loop
  check_loop-Keeps channel action otherwise zero interval start_at k j = j
  check_loop-Keeps channel action otherwise (suc left) interval start_at k j =
      let rest : Act X Bool =
        check_loop host.system host.net channel action otherwise left interval start_at in
      let again : Act X Bool = host.system.sleep interval >> rest in
      follow-Keeps contents (send_inline host.net channel (str "."))
        (λ _. action >>= λ res. on_result host.system host.net channel start_at res again)
        (inline-Keeps channel ".")
        λ _.
          follow-Keeps contents action
            (λ res. on_result host.system host.net channel start_at res again) k
            λ res. on_result-Keeps channel start_at res again (
              follow-Keeps contents (host.system.sleep interval) (λ _. rest)
                (keeper.sleep-Keeps interval)
                λ _. check_loop-Keeps channel action otherwise left interval start_at k j)

  give_up-Keeps :
      (channel : Channel) (action_name : String) (max_check : ℕ)
      → Keeps contents (give_up host.system host.net channel action_name max_check)
  unfolding give_up
  give_up-Keeps channel action_name max_check =
      let s : String =
        "\n I have checked "
        <> decimal max_check
        <> " times for action "
        <> action_name
        <> ", still not finished, give up..." in
      follow-Keeps contents (send_to_channel host.net channel (str s)) (λ _. pure false)
        (send_text-Keeps channel s) λ _. pure-Keeps false

  pub time_process-Keeps :
      (channel : Channel) (action_name : String) (action : Act X Bool) (interval : ℕ)
      → Keeps contents action
      → Keeps contents (time_process host channel action_name action interval)
  unfolding time_process time_process_action
  time_process-Keeps channel action_name action interval k =
      let otherwise = give_up host.system host.net channel action_name 20 in
      let loop : ℕ → Act X Bool =
        λ start_at. check_loop host.system host.net channel action otherwise 20 interval start_at in
      follow-Keeps contents (send_inline host.net channel (str ("Check " <> action_name)))
        (λ _. gets host.system.time >>= loop) (inline-Keeps channel ("Check " <> action_name))
        λ _.
          follow-Keeps contents (gets host.system.time) loop (gets-Keeps host.system.time)
            λ start_at.
              check_loop-Keeps channel action otherwise 20 interval start_at k
                (give_up-Keeps channel action_name 20)

  pub port_is_open-Keeps : (ip : String) (port : ℕ) → Keeps contents (port_is_open host ip port)
  unfolding port_is_open
  port_is_open-Keeps ip port = follow-Keeps contents host.sockets.socket _ keeper.socket-Keeps λ s.
      follow-Keeps contents (host.sockets.settimeout s 2) _ (keeper.settimeout-Keeps s 2) λ _.
        follow-Keeps contents (host.sockets.connect_ex s ip port) _
          (keeper.connect_ex-Keeps s ip port)
          λ result.
            follow-Keeps contents (host.sockets.close s) (λ _. pure (is_zero result))
              (keeper.close-Keeps s) λ _. pure-Keeps (is_zero result)

  pub tell-Keeps : (channel : Channel) (s : String) → Keeps contents (tell host channel s)
  unfolding tell
  tell-Keeps = send_text-Keeps
