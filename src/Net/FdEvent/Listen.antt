-- ===== src/Net/FdEvent/Listen.antt =====
-- flconc/net/base/fd_event.cc: the reactor's view of the events that are listened to.
use flconc.Base.{ℕ, ◌≡◌, refl, ap, ◌∙◌, List, [], ◌∷◌, ◌++◌, Option, Bool-cases, inl, inr}
use flconc.Net.FdEvent.{
  IoEvent, Events, no_events, has, FdEvent, ReactorCall, add_event, del_event, update_to_reactor,
  add_listen_events, del_listen_events, unregister_from_reactor, set_call_back,
}

-- The events that the reactor has registered for the descriptor after some calls.
pub registered : Events → List ReactorCall → Events
registered es [] = es
registered es (add_event r fd es' ∷ cs) = registered es' cs
registered es (del_event r fd ∷ cs) = registered no_events cs

-- The methods that change the events or the callbacks, with the reactor of the calling thread.
pub data Call : Type 0 where
  adds dels : ℕ → IoEvent → Call
  unregisters : ℕ → Call
  sets : IoEvent → Option ℕ → Call

pub call : FdEvent → Call → FdEvent × List ReactorCall
call e (adds current event) = add_listen_events current event e
call e (dels current event) = del_listen_events current event e
call e (unregisters current) = unregister_from_reactor current e
call e (sets event cb) = (set_call_back event cb e, [])

pub calls : FdEvent → List Call → FdEvent × List ReactorCall
calls e [] = (e, [])
calls e (c ∷ cs) = let (e', made) = call e c in let (e'', more) = calls e' cs in (e'', made ++ more)

registered-append :
    (es : Events) (cs ds : List ReactorCall)
    → registered es (cs ++ ds) ≡ registered (registered es cs) ds
unfolding registered
registered-append es [] ds = refl
registered-append es (add_event r fd es' ∷ cs) ds = registered-append es' cs ds
registered-append es (del_event r fd ∷ cs) ds = registered-append no_events cs ds

call-registered :
    (e : FdEvent) (c : Call)
    → registered e.m_listen_events (call e c).1 ≡ (call e c).0.m_listen_events
unfolding registered call add_listen_events del_listen_events unregister_from_reactor
    update_to_reactor set_call_back
call-registered e (adds current event) = elim (Bool-cases (has e.m_listen_events event)) [
  | inl h ↦ rw h refl
  | inr h ↦ rw h refl
]
call-registered e (dels current event) = elim (Bool-cases (has e.m_listen_events event)) [
  | inl h ↦ rw h refl
  | inr h ↦ rw h refl
]
call-registered e (unregisters current) = refl
call-registered e (sets IoEvent.read cb) = refl
call-registered e (sets IoEvent.write cb) = refl
call-registered e (sets IoEvent.et_model cb) = refl

-- The reactor starts with the events that are listened to. After any calls of `addListenEvents`,
-- `delListenEvents`, `unregisterFromReactor` and `setCallBack` it has again exactly those.
pub calls-registered :
    (e : FdEvent) (cs : List Call)
    → registered e.m_listen_events (calls e cs).1 ≡ (calls e cs).0.m_listen_events
unfolding registered calls
calls-registered e [] = refl
calls-registered e (c ∷ cs) =
    registered-append e.m_listen_events (call e c).1 (calls (call e c).0 cs).1
    ∙ ap (λ es. registered es (calls (call e c).0 cs).1) (call-registered e c)
    ∙ calls-registered (call e c).0 cs
