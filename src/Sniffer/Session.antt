-- ===== src/Sniffer/Session.antt =====
-- A capture from its start to its retrieval.
use ioppytest.Prelude.{Bool, true, false, ◌≡◌, refl, sym, subst, [], ◌∷◌, some, Text, ℕ, arith}
use ioppytest.Sniffer.{
  Sniffer, Request, File, Life, World, Reply, on_request, handle_get_capture_last, handle_start,
  handle_stop, send_last_file,
}

abbrev holding : Bool → Text → Sniffer
holding b name = record { is_dumper_set = b; last_capture_name = some name }

start_sets :
    (w : World) (s : Sniffer) (name : Text)
    → s.is_dumper_set ≡ false
    → (on_request (Request.start (some name)) w s).sniffer ≡ holding true name
unfolding on_request handle_start
start_sets w s name free = ground arith

stop_clears :
    (w : World) (name : Text)
    → w.life ≡ Life.finished
    → (on_request Request.stop w (holding true name)).sniffer ≡ holding false name
unfolding on_request handle_stop
stop_clears w name done = ground arith

refusal :
    (w : World) (s : Sniffer) (name : Text)
    → s.is_dumper_set ≡ true
    → (on_request (Request.start (some name)) w s).sent ≡ Reply.error_reply ∷ []
unfolding on_request handle_start
refusal w s name busy = ground arith

refusal_renames :
    (w : World) (s : Sniffer) (name : Text)
    → s.is_dumper_set ≡ true
    → (on_request (Request.start (some name)) w s).sniffer ≡ holding true name
unfolding on_request handle_start
refusal_renames w s name busy = ground arith

sends_last :
    (w : World) (c : ℕ) (name bytes : Text)
    → w.file_of (c ∷ name) ≡ File.content bytes
    → (on_request Request.get_capture_last w (holding false (c ∷ name))).sent
      ≡ Reply.capture_last_reply (c ∷ name) bytes ∷ []
unfolding on_request handle_get_capture_last send_last_file
sends_last w c name bytes file = ground arith

-- The capture that is started while no dumper is set, stopped once its process has finished, and
-- whose file has content by the time of the last request, is the one that is then sent.
pub session_sends_capture :
    (w w' w'' : World) (s : Sniffer) (c : ℕ) (name bytes : Text)
    → s.is_dumper_set ≡ false
    → w'.life ≡ Life.finished
    → w''.file_of (c ∷ name) ≡ File.content bytes
    → let started = (on_request (Request.start (some (c ∷ name))) w s).sniffer in
      let stopped = (on_request Request.stop w' started).sniffer in
      (stopped.is_dumper_set ≡ false)
      × ((on_request Request.get_capture_last w'' stopped).sent
          ≡ Reply.capture_last_reply (c ∷ name) bytes ∷ [])
session_sends_capture w w' w'' s c name bytes free done file =
    let started = start_sets w s (c ∷ name) free in
    subst
      (λ m.
        let stopped = (on_request Request.stop w' m).sniffer in
        (stopped.is_dumper_set ≡ false)
        × ((on_request Request.get_capture_last w'' stopped).sent
            ≡ Reply.capture_last_reply (c ∷ name) bytes ∷ []))
      (sym started)
      (subst
        (λ m.
          (m.is_dumper_set ≡ false)
          × ((on_request Request.get_capture_last w'' m).sent
              ≡ Reply.capture_last_reply (c ∷ name) bytes ∷ []))
        (sym (stop_clears w' (c ∷ name) done)) (refl, sends_last w'' c name bytes file))

-- While a dumper is set, a start is refused with an error reply, and yet the name of the refused
-- capture replaces that of the one under way: stopping then sends the file of the refused name.
pub renamed_by_refusal :
    (w w' w'' : World) (s : Sniffer) (c : ℕ) (name bytes : Text)
    → s.is_dumper_set ≡ true
    → w'.life ≡ Life.finished
    → w''.file_of (c ∷ name) ≡ File.content bytes
    → let refused = on_request (Request.start (some (c ∷ name))) w s in
      let stopped = (on_request Request.stop w' refused.sniffer).sniffer in
      (refused.sent ≡ Reply.error_reply ∷ [])
      × ((on_request Request.get_capture_last w'' stopped).sent
          ≡ Reply.capture_last_reply (c ∷ name) bytes ∷ [])
renamed_by_refusal w w' w'' s c name bytes busy done file = (
  refusal w s (c ∷ name) busy,
  subst
      (λ m.
        (on_request Request.get_capture_last w'' (on_request Request.stop w' m).sniffer).sent
        ≡ Reply.capture_last_reply (c ∷ name) bytes ∷ [])
      (sym (refusal_renames w s (c ∷ name) busy))
      (subst
        (λ m.
          (on_request Request.get_capture_last w'' m).sent
          ≡ Reply.capture_last_reply (c ∷ name) bytes ∷ [])
        (sym (stop_clears w' (c ∷ name) done)) (sends_last w'' c name bytes file)),
)
