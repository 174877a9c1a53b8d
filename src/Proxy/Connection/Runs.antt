-- ===== src/Proxy/Connection/Runs.antt =====
-- internal/proxy/conn.go: the connection with its map of requests implements one inbox per request.
use heimdall.Base.{ℕ, ◌≡◌, refl, ◌∙◌, ap, false, List, [], ◌∷◌, ltb, arith}
use heimdall.Proxy.Protocol.{JsonCodec}
use heimdall.Proxy.Connection.{AgentConn, new_agent_conn}
use heimdall.Proxy.Connection.Inboxes.{Inbox, unopened, inbox, Event, after, Step}
use heimdall.Proxy.Connection.Refinement.{Routed}
use heimdall.Proxy.Connection.Steps.{Step-Does}

-- The steps of a connection one after another, with what is seen of each.
pub data Run (codec : JsonCodec) : AgentConn → List Event → AgentConn → Type 0 where
  stays : (c : AgentConn) → Run codec c [] c
  goes :
      (c d e : AgentConn) (event : Event) (events : List Event)
      → Step codec c event d
      → Run codec d events e
      → Run codec c (event ∷ events) e

unfoldable pub afterwards : List Event → ℕ → Inbox → Inbox
afterwards [] k i = i
afterwards (e ∷ events) k i = afterwards events k (after e k i)

Run-inbox :
    (codec : JsonCodec) (c c' : AgentConn) (events : List Event)
    → Routed c
    → Run codec c events c'
    → Routed c' × ((k : ℕ) → inbox c' k ≡ afterwards events k (inbox c k))
unfolding afterwards
Run-inbox codec _ _ _ w (stays c) = (w, λ k. refl)
Run-inbox codec _ _ _ w (goes c d e event events step run) =
    let (first, seen) = Step-Does codec c d event w step in
    let later = Run-inbox codec d e events first.0 run in
    (later.0, λ k. later.1 k ∙ ap (λ i. afterwards events k i) (first.1 k))

new_agent_conn-Routed : (incoming : List ℕ) → Routed (new_agent_conn incoming)
unfolding new_agent_conn
new_agent_conn-Routed incoming = record {
  known = λ id h held. absurd (ground (arith, held));
  named = λ id h held. absurd (ground (arith, held));
  live = λ id h held. absurd (ground (arith, held));
  current = λ k below. absurd (omega (arith, below));
}

-- However the requests, the loop and the readers of a new connection take turns, every request ends up
-- with the inbox that the events alone give it: the frames of its ID that came since it was opened, in
-- the order in which they came, less those its reader has taken, and nothing that came for another ID.
pub new_agent_conn-inbox :
    (codec : JsonCodec) (incoming : List ℕ) (c : AgentConn) (events : List Event)
    → Run codec (new_agent_conn incoming) events c
    → (k : ℕ) → inbox c k ≡ afterwards events k unopened
unfolding inbox new_agent_conn
new_agent_conn-inbox codec incoming c events run k =
    let start : ltb k 0 ≡ false = ground arith in
    (Run-inbox codec (new_agent_conn incoming) c events (new_agent_conn-Routed incoming) run).1 k
    ∙ rw start refl
