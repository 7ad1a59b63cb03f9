-- ===== src/Sniffer.antt =====
-- ioppytest/packet_sniffer/__main__.py: the state of the sniffer and its handler of requests. What
-- the file system and the process of the dumper answer are parameters of the handler.
pub mod Session
use ioppytest.Prelude.{Bool, true, false, not, List, [], ◌∷◌, ◌++◌, Option, none, some, Text}

-- `pcap_dumper_subprocess is not None`, and `last_capture_name`.
pub record Sniffer : Type 0 where
  pub is_dumper_set : Bool
  pub last_capture_name : Option Text

-- `__init__`
unfoldable pub init : Sniffer
init = record { is_dumper_set = false; last_capture_name = none }

-- The requests; those that name a capture may lack its id.
pub data Request : Type 0 where
  get_capture_last : Request
  get_capture : Option Text → Request
  start : Option Text → Request
  stop : Request
  unhandled : Request

-- The file of a capture in the temporary directory.
pub data File : Type 0 where
  missing empty unreadable : File
  content : Text → File

-- What the process of the dumper answers: whether its start raises, and `is_alive`.
pub data Life : Type 0 where
  alive finished is_alive_raises : Life

pub record World : Type 0 where
  pub file_of : Text → File
  pub start_raises : Bool
  pub life : Life

pub data Reply : Type 0 where
  error_reply : Reply
  capture_last_reply : Text → Text → Reply
  capture_reply : Text → Text → Reply
  start_reply : Reply
  stop_reply : Bool → Reply

-- How the handler ends: it returns, or it lets an exception through to the caller.
pub data Ending : Type 0 where
  returned escaped : Ending

pub record Handled : Type 0 where
  pub sent : List Reply
  pub ending : Ending
  pub sniffer : Sniffer

abbrev answer : Sniffer → List Reply → Handled
answer s replies = record { sent = replies; ending = Ending.returned; sniffer = s }

abbrev escape : Sniffer → Handled
escape s = record { sent = []; ending = Ending.escaped; sniffer = s }

-- An empty file is logged and gets no reply; every error, one of reading included, a reply.
unfoldable pub send_last_file : Text → File → Sniffer → Handled
send_last_file capture_id File.missing s = answer s (Reply.error_reply ∷ [])
send_last_file capture_id File.empty s = answer s []
send_last_file capture_id File.unreadable s = answer s (Reply.error_reply ∷ [])
send_last_file capture_id (File.content bytes) s =
    answer s (Reply.capture_last_reply capture_id bytes ∷ [])

-- Here only the missing file is caught.
unfoldable pub send_file : Text → File → Sniffer → Handled
send_file capture_id File.missing s = answer s (Reply.error_reply ∷ [])
send_file capture_id File.empty s = answer s []
send_file capture_id File.unreadable s = escape s
send_file capture_id (File.content bytes) s = answer s (Reply.capture_reply capture_id bytes ∷ [])

-- `if self.last_capture_name`: the empty name counts as none.
unfoldable pub handle_get_capture_last : World → Sniffer → Handled
unfolding send_last_file
handle_get_capture_last w s = elim s.last_capture_name [
  | none ↦ answer s (Reply.error_reply ∷ [])
  | some [] ↦ answer s (Reply.error_reply ∷ [])
  | some (c ∷ cs) ↦ send_last_file (c ∷ cs) (w.file_of (c ∷ cs)) s
]

-- The process of the dumper is stored before it is started, so a start that raises leaves it.
unfoldable pub handle_start : Option Text → World → Sniffer → Handled
handle_start none w s = answer s (Reply.error_reply ∷ [])
handle_start (some capture_id) w s = elim s.is_dumper_set [
  | true ↦ answer (record s { last_capture_name = some capture_id }) (Reply.error_reply ∷ [])
  | false ↦ elim w.start_raises [
    | true ↦
        answer (record { is_dumper_set = true; last_capture_name = some capture_id })
          (Reply.error_reply ∷ [])
    | false ↦
        answer (record { is_dumper_set = true; last_capture_name = some capture_id })
          (Reply.start_reply ∷ [])
  ]
]

unfoldable pub handle_stop : World → Sniffer → Handled
handle_stop w s = elim s.is_dumper_set [
  | false ↦ answer s (Reply.stop_reply true ∷ [])
  | true ↦ elim w.life [
    | Life.alive ↦ answer s (Reply.stop_reply false ∷ [])
    | Life.finished ↦ answer (record s { is_dumper_set = false }) (Reply.stop_reply true ∷ [])
    | Life.is_alive_raises ↦ answer s (Reply.error_reply ∷ [])
  ]
]

unfoldable pub on_request : Request → World → Sniffer → Handled
unfolding handle_get_capture_last send_file handle_start handle_stop
on_request Request.get_capture_last w s = handle_get_capture_last w s
on_request (Request.get_capture none) w s = escape s
on_request (Request.get_capture (some capture_id)) w s =
    send_file capture_id (w.file_of capture_id) s
on_request (Request.start capture_id) w s = handle_start capture_id w s
on_request Request.stop w s = handle_stop w s
on_request Request.unhandled w s = answer s []
