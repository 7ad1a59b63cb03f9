-- ===== src/Clients/Libcoap/Target.antt =====
-- The target of the client of automation/coap_client_libcoap/automated_iut.py over a session.
use ioppytest.Prelude.{◌≡◌, refl, List, [], ◌∷◌, Option, none, some, Text, ap, ◌∙◌, map, lookup}
use ioppytest.AutomatedIut.{Stimuli}
use ioppytest.Clients.{Environment, Launch, Process, base_url_of, target}
use ioppytest.Clients.Libcoap.Table.{Entry}
use ioppytest.Clients.Libcoap.{Client, execute_stimuli, table_of}
use ioppytest.Clients.Libcoap.Executes.{Does, execute_stimuli_lem}

-- A request of the coordinator: the step, its target address, and the token that is drawn for it.
abbrev pub Asked : Type 0
Asked = Text × Option Text × Text

-- The last address that is not empty.
abbrev later_or : Option Text → Option Text → Option Text
later_or (some a) o = some a
later_or none (some (c ∷ s)) = some (c ∷ s)
later_or none _ = none

abbrev pub latest : List (Option Text) → Option Text
latest [] = none
latest (o ∷ rest) = later_or (latest rest) o

abbrev pub target_of : Environment → Text → Option Text → Text
target_of env before none = before
target_of env before (some a) = base_url_of a env.coap_server_port

module _ (env : Environment) (process : Launch → Process) where
  abbrev pub execute_all : List Asked → Client → Client
  execute_all [] client = client
  execute_all ((step, addr, tkn) ∷ rest) client =
      execute_all rest (execute_stimuli env process tkn step addr none client).1

  kept :
      (tkn step : Text) (o : Option Entry) (client : Client) (result : Stimuli × Client)
      → Does process tkn step o client result
      → result.1.base_url ≡ client.base_url
  kept tkn step none client result h = ap (λ p. p.1.base_url) h
  kept tkn step (some (func, args)) client result (r, l, q, e, m, w, h) = ap (λ p. p.1.base_url) h

  one_target :
      (tkn step : Text) (addr : Option Text) (client : Client)
      → (execute_stimuli env process tkn step addr none client).1.base_url
        ≡ target none addr env.coap_server_port client.base_url
  one_target tkn step addr client =
      kept tkn step (lookup step (table_of env client.mode_aux))
        (record client { base_url = target none addr env.coap_server_port client.base_url })
        (execute_stimuli env process tkn step addr none client)
        (execute_stimuli_lem env process tkn step addr none client)

  then_target :
      (addr later : Option Text) (before : Text)
      → target_of env (target none addr env.coap_server_port before) later
        ≡ target_of env before (later_or later addr)
  then_target addr (some a) before = refl
  then_target none none before = refl
  then_target (some []) none before = refl
  then_target (some (c ∷ s)) none before = refl

  -- After any requests the target of the client is that of the last address that a request had,
  -- and without any address it is the target of before.
  pub execute_all-target :
      (asked : List Asked) (client : Client)
      → (execute_all asked client).base_url
        ≡ target_of env client.base_url (latest (map (λ a. a.1) asked))
  execute_all-target [] client = refl
  execute_all-target ((step, addr, tkn) ∷ rest) client =
      execute_all-target rest (execute_stimuli env process tkn step addr none client).1
      ∙ (ap (λ b. target_of env b (latest (map (λ a. a.1) rest))) (one_target tkn step addr client)
          ∙ then_target addr (latest (map (λ a. a.1) rest)) client.base_url)
