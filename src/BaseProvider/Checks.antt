-- ===== src/BaseProvider/Checks.antt =====
-- `time_process_action` (lobbyboy/provider.py): what its result says of the action.

use lobbyboy.Base.{◌≡◌, refl, ℕ, zero, suc, Bool, true, false, String, ◌<>◌}
use lobbyboy.Act.{ok, Act, pure, ◌>>=◌, ◌>>◌, Returns, follow-Returns, then-ok, gets}
use lobbyboy.Text.Print.{decimal}
use lobbyboy.World.{Channel, Net}
use lobbyboy.Terminal.{str, send_inline, send_to_channel}
use lobbyboy.BaseProvider.{System, check_loop, on_result, give_up, time_process_action}

module _ {X : Type 0} (system : System X) (net : Net X) (channel : Channel)
    (action : Act X Bool) where
  -- What a result of true stands on: a call of the action that returned true.
  abbrev IsDone : Bool → Type 0
  IsDone res = res ≡ true → (x : X) × ((action x).0 ≡ ok true)

  on_result-Returns :
      (start_at : ℕ) (res : Bool) (again : Act X Bool) (x : X)
      → (action x).0 ≡ ok res
      → Returns IsDone again
      → Returns IsDone (on_result system net channel start_at res again)
  unfolding on_result
  on_result-Returns start_at true again x e p = λ s b h t. (x, e)
  on_result-Returns start_at false again x e p = p

  check_loop-Returns :
      (left interval start_at : ℕ) (otherwise : Act X Bool)
      → Returns IsDone otherwise
      → Returns IsDone (check_loop system net channel action otherwise left interval start_at)
  unfolding check_loop
  check_loop-Returns zero interval start_at otherwise p = p
  check_loop-Returns (suc left) interval start_at otherwise p =
      let again : Act X Bool =
        system.sleep interval
        >> check_loop system net channel action otherwise left interval start_at in
      let rest : Returns IsDone again =
        follow-Returns IsDone (system.sleep interval) _
          λ _. check_loop-Returns left interval start_at otherwise p in
      follow-Returns IsDone (send_inline net channel (str "."))
        (λ _. action >>= λ res. on_result system net channel start_at res again)
        λ _ x b h.
          let (res, h', e) =
            then-ok (action x).0 (λ res. on_result system net channel start_at res again)
              (action x).1 h in
          on_result-Returns start_at res again x e rest (action x).1 b h'

  give_up-Returns :
      (action_name : String) (max_check : ℕ)
      → Returns IsDone (give_up system net channel action_name max_check)
  unfolding give_up
  give_up-Returns action_name max_check =
      follow-Returns IsDone
        (send_to_channel net channel (
          str (
            "\n I have checked "
            <> decimal max_check
            <> " times for action "
            <> action_name
            <> ", still not finished, give up...")))
        (λ _. pure false) λ _ x b h t. absurd (cc (t, h))

  process-Returns :
      (action_name : String) (max_check interval : ℕ)
      → Returns IsDone
          (time_process_action system net channel action_name action max_check interval)
  unfolding time_process_action
  process-Returns action_name max_check interval =
      let loop : ℕ → Act X Bool = λ start_at.
        check_loop system net channel action (give_up system net channel action_name max_check)
          max_check interval start_at in
      follow-Returns IsDone (send_inline net channel (str ("Check " <> action_name)))
        (λ _. gets system.time >>= loop)
        λ _. follow-Returns IsDone (gets system.time) loop λ start_at.
          check_loop-Returns max_check interval start_at
            (give_up system net channel action_name max_check)
            (give_up-Returns action_name max_check)

  -- `time_process_action` gives true only on the strength of a call of the action that returned true,
  -- whatever the channel and the system do, and however many checks it may make.
  pub time_process_action-IsDone :
      (action_name : String) (max_check interval : ℕ) (x : X)
      → (time_process_action system net channel action_name action max_check interval x).0 ≡ ok true
      → (y : X) × ((action y).0 ≡ ok true)
  time_process_action-IsDone action_name max_check interval x h =
      process-Returns action_name max_check interval x true h refl
