-- ===== src/Engine.antt =====
-- lib/wpc/wpc_internal.c as the services and lib/wpc/wpc.c use it: the interfaces `Requests` and
-- `Control`, filled by the functions of the file and their laws.
use c_mesh_api.WpcInternal.Lawful.{IsLawful, send_request_locked-IsLawful}
use c_mesh_api.Wpc.Stack.{Control}
use c_mesh_api.WpcInternal.Indication.{
  send_request_timeout, get_mtu, set_mtu, disable_poll_request, set_timeout_s_no_answer,
}
use c_mesh_api.Msap.Mtu.{KeepsMtu}
use c_mesh_api.Request.{Requests}
use c_mesh_api.WpcInternal.{answered, exited, Link, Statics, Answer, send_request_locked}
use c_mesh_api.Prelude.{
  ℕ, Bytes, ok, Bool, ◌≡◌, Outcome, subst, ap, ok-injective, returned, refl, ◌<◌, ◌^◌, some, arith,
}

module _ {W : Type 0} (link : Link W) (buffer : Bytes) where
  -- The result and the contents of `confirm` behind the call with the locks.
  pub send_request_timeout-IsLawful :
      (request confirm : Bytes) (timeout_ms : ℕ) (s s' : Statics W) (answer : Answer)
      → send_request_timeout link buffer request confirm timeout_ms s ≡ ok (answer, s')
      → IsLawful confirm answer
  unfolding send_request_timeout
  send_request_timeout-IsLawful request confirm timeout_ms s s' answer h =
      let s1 : Statics W = record s { world = link.lock s.world } in
      let ((a, s2), e, k) =
        returned (send_request_locked link buffer request confirm timeout_ms s1) _ h in
      let l = send_request_locked-IsLawful link buffer request confirm timeout_ms s1 a s2 e in
      unlocked confirm a answer s2 s' l k
    where
      unlocked :
          (confirm : Bytes) (a b : Answer) (s s' : Statics W)
          → IsLawful confirm a
          → (let o : Outcome (Answer × Statics W) = elim a [
            | exited ↦ ok (exited, s)
            | answered r c ↦ ok (answered r c, record s { world = link.unlock s.world })
          ] in
              o)
            ≡ ok (b, s')
          → IsLawful confirm b
      unlocked confirm exited b s s' l h =
          subst (IsLawful confirm) (ap (λ x. x.0) (ok-injective (exited, s) (b, s') h)) l
      unlocked confirm (answered r c) b s s' l h =
          subst (IsLawful confirm)
            (ap (λ x. x.0)
              (ok-injective (answered r c, record s { world = link.unlock s.world }) (b, s') h))
            l

  pub disabled_poll_request_lem :
      (disabled : Bool) (s : Statics W)
      → (disable_poll_request link disabled s).disabled_poll_request ≡ disabled
  unfolding disable_poll_request
  disabled_poll_request_lem disabled s = refl

  -- The transmission unit that is set is the one that is given.
  pub get_mtu-set_mtu :
      (unit : ℕ) (s : Statics W) → unit < 2 ^ 8 → get_mtu link (set_mtu link (some unit) s) ≡ unit
  unfolding get_mtu set_mtu
  get_mtu-set_mtu unit s h = omega arith

  -- `buffer` is the local array of `send_request_locked`, with any contents.
  abbrev pub requests_of : Requests (Statics W)
  requests_of = record {
    send_request_timeout = send_request_timeout link buffer;
    get_mtu = get_mtu link;
    set_mtu = set_mtu link;
    lock = λ s. record s { world = link.lock s.world };
    unlock = λ s. record s { world = link.unlock s.world };
    answer = λ request confirm timeout_ms s s' res confirm' e.
        send_request_timeout-IsLawful request confirm timeout_ms s s' (answered res confirm') e;
  }

  abbrev pub control_of : Control (Statics W)
  control_of = record {
    set_timeout_s_no_answer = set_timeout_s_no_answer link;
    disable_poll_request = disable_poll_request link;
    is_poll_disabled = λ s. s.disabled_poll_request;
    get_timestamp_ms_monotonic =
        λ s. let (now, w) = link.monotonic s.world in (now, record s { world = w });
    disable_poll_request_lem = disabled_poll_request_lem;
  }

  requests_of-KeepsMtu : KeepsMtu requests_of
  requests_of-KeepsMtu unit s h = get_mtu-set_mtu unit s h
