-- ===== src/Client/Lifetime/Safety.antt =====
-- When a client may be destroyed.
use emserver.Base.{
  ◌≡◌, ◌⊎◌, inl, inr, refl, sym, ◌∙◌, List, [], ◌∷◌, All, Option, none, some, true, Run, done,
  crash, stuck, use_after_free, destroyed, on_members, guarded, go_on-some, lt→ltb, subst, ◌<◌,
  ErrorCode, some-injective, ◌>>=◌, go_on,
}
use emserver.Emserver.Proto.{EmserverCodec}
use emserver.Client.Transport.{TransportClient, close_connection}
use emserver.Client.{
  EmserverAdapter, Session, User, connection_close, call_found, on_handler_resolved,
  on_handler_accepted,
}
use emserver.Client.Facade.{destroy_adapter}
use emserver.Client.Lifetime.{
  Remains, whole, Completion, resolves, connects, expires, call_owner, handler_resolved,
  handler_accepted, handler_step, at_rest, join, destroy_client,
}

-- A completion after which the transport has nothing to tell its owner.
abbrev pub IsSilent : Completion → Type 0
IsSilent (resolves (some code)) = ⊥
IsSilent (connects none session) = ⊥
IsSilent _ = Unit {0}

-- The transport when the other members are destroyed.
abbrev pub alone : TransportClient → Remains
alone t = record { transport = t; owner = destroyed }

-- How a join ends: it returns, with nothing under way, after silent completions, or one of them was
-- not silent and its handler has used a destroyed member.
abbrev pub Ends : List Completion → Run Remains → Type 0
Ends es x =
    ((t : TransportClient) × (x ≡ done (alone t)) × (at_rest t ≡ true) × All IsSilent es)
    ⊎ ((x ≡ crash use_after_free) × ¬ All IsSilent es)

Ends-cons :
    (e : Completion) (es : List Completion) (x : Run Remains)
    → IsSilent e
    → Ends es x
    → Ends (e ∷ es) x
Ends-cons e es x silent (inl (t, is, rests, all)) = inl (t, is, rests, (silent, all))
Ends-cons e es x silent (inr (is, some_)) = inr (is, λ all. some_ all.1)

-- The adapter with its transport as it is.
abbrev pub seen : Remains → Run EmserverAdapter
seen r = on_members {A = EmserverAdapter} (λ a. done (record a { transport = r.transport })) r.owner

seen-whole : (m : Run EmserverAdapter) → (m >>= (λ a. done (whole a)) >>= seen) ≡ m
seen-whole (done a) = refl
seen-whole (crash f) = refl
seen-whole stuck = refl

module _ (codec : EmserverCodec) (user : User) where
  -- With their owner the handlers are the ones of the running client.
  pub handler_resolved-whole :
      (er_code : Option ErrorCode) (a : EmserverAdapter)
      → (handler_resolved codec user er_code (whole a) >>= seen)
        ≡ on_handler_resolved codec user er_code a
  unfolding handler_resolved on_handler_resolved call_owner
  handler_resolved-whole none a = refl
  handler_resolved-whole (some code) a = seen-whole _

  pub handler_accepted-whole :
      (er_code : Option ErrorCode) (session : Session) (a : EmserverAdapter)
      → (handler_accepted codec user er_code session (whole a) >>= seen)
        ≡ on_handler_accepted codec user er_code session a
  unfolding handler_accepted on_handler_accepted call_owner
  handler_accepted-whole (some code) session a = refl
  handler_accepted-whole none session a = seen-whole _

  -- The handler of one completion, and the rest of the join.
  join-step :
      (e : Completion) (es : List Completion) (t : TransportClient) (x : Run Remains)
      → join codec user (e ∷ es) (alone t) ≡ some x
      → ((t' : TransportClient) × IsSilent e × (join codec user es (alone t') ≡ some x))
        ⊎ ((x ≡ crash use_after_free) × ¬ IsSilent e)
  unfolding join handler_step handler_resolved handler_accepted call_owner
  join-step (resolves none) es t x e =
      let (y, is, rest) = go_on-some _ (join codec user es) x e in
      inl (
        _,
        tt,
        subst (λ z. go_on (some z) (join codec user es) ≡ some x) (sym (guarded _ is).1) rest,
      )
  join-step (resolves (some code)) es t x e =
      let (y, is, rest) = go_on-some _ (join codec user es) x e in
      inr (
        sym (
            some-injective (
              subst (λ z. go_on (some z) (join codec user es) ≡ some x) (sym (guarded _ is).1)
                rest)),
        λ h. h,
      )
  join-step (connects (some code) session) es t x e =
      let (y, is, rest) = go_on-some _ (join codec user es) x e in
      inl (
        _,
        tt,
        subst (λ z. go_on (some z) (join codec user es) ≡ some x) (sym (guarded _ is).1) rest,
      )
  join-step (connects none session) es t x e =
      let (y, is, rest) = go_on-some _ (join codec user es) x e in
      inr (
        sym (
            some-injective (
              subst (λ z. go_on (some z) (join codec user es) ≡ some x) (sym (guarded _ is).1)
                rest)),
        λ h. h,
      )
  join-step (expires code) es t x e = inl (_, tt, e)

  join-Ends :
      (es : List Completion) (t : TransportClient) (x : Run Remains)
      → join codec user es (alone t) ≡ some x
      → Ends es x
  unfolding join
  join-Ends [] t x e = let (rests, is) = guarded (at_rest t) e in inl (t, sym is, rests, tt)
  join-Ends (e ∷ es) t x h = elim (join-step e es t x h) [
    | inl (t', silent, rest) ↦ Ends-cons e es x silent (join-Ends es t' x rest)
    | inr (is, loud) ↦ inr (is, λ all. loud all.0)
  ]

  destroy_client-join :
      (es : List Completion) (a : EmserverAdapter)
      → destroy_client codec user es a ≡ join codec user es (alone (close_connection a.transport))
  unfolding destroy_client destroy_adapter connection_close call_found
  destroy_client-join es a = refl

  -- A client is destroyed while a name is being resolved. However that and all else ends that its
  -- transport is doing, and in any order: the destructor returns only with no attempt under way and
  -- the timer off, and only if each name has been resolved and each connection refused, since
  -- otherwise a handler uses a member of the client that has been destroyed. And it may: a first
  -- name that is not found is enough.
  pub attempt_destroyed :
      (a : EmserverAdapter) (es : List Completion) (x : Run Remains) (code : ErrorCode)
      → destroy_client codec user es a ≡ some x
      → 0 < a.transport.resolving
      → Ends es x
        × (destroy_client codec user (resolves (some code) ∷ []) a ≡ some (crash use_after_free))
  unfolding join handler_step handler_resolved call_owner close_connection
  attempt_destroyed a es x code ended resolving = (
    join-Ends es (close_connection a.transport) x (sym (destroy_client-join es a) ∙ ended),
    destroy_client-join (resolves (some code) ∷ []) a
        ∙ rw (lt→ltb 0 a.transport.resolving resolving) refl,
  )
