-- ===== src/Clients/Aiocoap/Table.antt =====
-- The table of automation/coap_client_aiocoap/automated_iut.py: what is called for a stimuli.
use Prim.Native.String.{String}
use ioppytest.Prelude.{false, true, [], ◌∷◌, Text, codes, Dict}
use ioppytest.Clients.{Value, flag, number, text}
use ioppytest.Clients.Payload.{large_payload}

pub data Func : Type 0 where
  get put post delete observe : Func

abbrev pub Entry : Type 0
Entry = Func × Dict Value

-- A stimuli with the function and the keyword arguments of its call.
abbrev entry : Text → String → Func → String → Dict Value → Text × Entry
entry default_base_url step func resource more = (
  codes step,
  (
    func,
    (codes "base_url", text default_base_url) ∷ (codes "resource", text (codes resource)) ∷ more,
  ),
)

abbrev pub stimuli_to_aiocoap_cli_call : Text → Dict Entry
stimuli_to_aiocoap_cli_call default_base_url =
    entry default_base_url "TD_COAP_CORE_01_step_01" get "/test" []
    ∷ entry default_base_url "TD_COAP_CORE_02_step_01" delete "/test" []
    ∷ entry default_base_url "TD_COAP_CORE_03_step_01" put "/test"
        ((codes "content_format", text (codes "text/plain")) ∷ [])
    ∷ entry default_base_url "TD_COAP_CORE_04_step_01" post "/test"
        ((codes "content_format", text (codes "text/plain")) ∷ [])
    ∷ entry default_base_url "TD_COAP_CORE_05_step_01" get "/test"
        ((codes "confirmable", flag false) ∷ [])
    ∷ entry default_base_url "TD_COAP_CORE_06_step_01" delete "/test"
        ((codes "confirmable", flag false) ∷ [])
    ∷ entry default_base_url "TD_COAP_CORE_07_step_01" put "/test" (
        (codes "content_format", text (codes "text/plain"))
        ∷ (codes "confirmable", flag false)
        ∷ [])
    ∷ entry default_base_url "TD_COAP_CORE_08_step_01" post "/test"
        ((codes "content_format", text (codes "text/plain")) ∷ [])
    ∷ entry default_base_url "TD_COAP_CORE_09_step_01" get "/separate" []
    ∷ entry default_base_url "TD_COAP_CORE_10_step_01" get "/test" []
    ∷ entry default_base_url "TD_COAP_CORE_11_step_01" get "/separate" []
    ∷ entry default_base_url "TD_COAP_CORE_12_step_01" get "/test"
        ((codes "use_token", flag false) ∷ [])
    ∷ entry default_base_url "TD_COAP_CORE_13_step_01" get "/seg1/seg2/seg3" []
    ∷ entry default_base_url "TD_COAP_CORE_14_step_01" get "/query?first=1&second=2&third=3" []
    ∷ entry default_base_url "TD_COAP_CORE_15_step_01" get "/test" []
    ∷ entry default_base_url "TD_COAP_CORE_16_step_01" get "/separate" []
    ∷ entry default_base_url "TD_COAP_CORE_17_step_01" get "/separate"
        ((codes "confirmable", flag false) ∷ [])
    ∷ entry default_base_url "TD_COAP_CORE_18_step_01" post "/test"
        ((codes "content_format", text (codes "text/plain")) ∷ [])
    ∷ entry default_base_url "TD_COAP_CORE_19_step_01" post
        "/location-query?first=1&second=2&third=3" []
    ∷ entry default_base_url "TD_COAP_CORE_20_step_01" get "/multi-format"
        ((codes "accept_option", text (codes "text/plain")) ∷ [])
    ∷ entry default_base_url "TD_COAP_CORE_20_step_05" get "/multi-format"
        ((codes "accept_option", text (codes "application/xml")) ∷ [])
    ∷ entry default_base_url "TD_COAP_CORE_21_step_01" get "/validate" []
    ∷ entry default_base_url "TD_COAP_CORE_21_step_05" get "/validate" []
    ∷ entry default_base_url "TD_COAP_CORE_22_step_01" get "/validate" []
    ∷ entry default_base_url "TD_COAP_CORE_22_step_08" put "/validate" []
    ∷ entry default_base_url "TD_COAP_CORE_23_step_01" put "/create1" (
        (codes "content_format", text (codes "text/plain"))
        ∷ (codes "use_if_none_match", flag true)
        ∷ [])
    ∷ entry default_base_url "TD_COAP_CORE_23_step_05" put "/create1" (
        (codes "content_format", text (codes "text/plain"))
        ∷ (codes "use_if_none_match", flag true)
        ∷ [])
    ∷ entry default_base_url "TD_COAP_OBS_01_step_01" observe "/obs" []
    ∷ entry default_base_url "TD_COAP_OBS_02_step_01" observe "/obs-non"
        ((codes "confirmable", flag false) ∷ [])
    ∷ entry default_base_url "TD_COAP_OBS_04_step_01" observe "/obs" []
    ∷ entry default_base_url "TD_COAP_OBS_05_step_01" observe "/obs" []
    ∷ entry default_base_url "TD_COAP_OBS_07_step_01" observe "/obs"
        ((codes "duration", number 20) ∷ [])
    ∷ entry default_base_url "TD_COAP_OBS_08_step_01" observe "/obs"
        ((codes "duration", number 20) ∷ [])
    ∷ entry default_base_url "TD_COAP_OBS_09_step_01" observe "/obs"
        ((codes "duration", number 20) ∷ [])
    ∷ entry default_base_url "TD_COAP_OBS_10_step_01" observe "/obs"
        ((codes "duration", number 20) ∷ [])
    ∷ entry default_base_url "TD_COAP_BLOCK_01_step_01" get "/large"
        ((codes "use_block_option", flag true) ∷ [])
    ∷ entry default_base_url "TD_COAP_BLOCK_02_step_01" get "/large"
        ((codes "use_block_option", flag false) ∷ [])
    ∷ entry default_base_url "TD_COAP_BLOCK_03_step_01" put "/large-update" (
        (codes "use_block_option", flag true)
        ∷ (codes "content_format", text (codes "text/plain"))
        ∷ (codes "payload", text large_payload)
        ∷ [])
    ∷ entry default_base_url "TD_COAP_BLOCK_04_step_01" post "/large-create" (
        (codes "use_block_option", flag true)
        ∷ (codes "content_format", text (codes "text/plain"))
        ∷ (codes "payload", text large_payload)
        ∷ [])
    ∷ entry default_base_url "TD_COAP_BLOCK_05_step_01" post "/large-post" (
        (codes "use_block_option", flag true)
        ∷ (codes "content_format", text (codes "text/plain"))
        ∷ (codes "payload", text large_payload)
        ∷ [])
    ∷ entry default_base_url "TD_COAP_BLOCK_06_step_01" get "/large"
        ((codes "use_block_option", flag true) ∷ (codes "block_size", number 16) ∷ [])
    ∷ entry default_base_url "TD_COAP_LINK_01_step_01" get "/.well-known/core" []
    ∷ entry default_base_url "TD_COAP_LINK_02_step_01" get "/.well-known/core?rt=Type1" []
    ∷ entry default_base_url "TD_COAP_LINK_03_step_01" get "/.well-known/core?rt=*" []
    ∷ entry default_base_url "TD_COAP_LINK_04_step_01" get "/.well-known/core?rt=Type2" []
    ∷ entry default_base_url "TD_COAP_LINK_05_step_01" get "/.well-known/core?if=If*" []
    ∷ entry default_base_url "TD_COAP_LINK_06_step_01" get "/.well-known/core?sz=*" []
    ∷ entry default_base_url "TD_COAP_LINK_07_step_01" get "/.well-known/core?href=/link1" []
    ∷ entry default_base_url "TD_COAP_LINK_08_step_01" get "/.well-known/core?href=/link*" []
    ∷ entry default_base_url "TD_COAP_LINK_09_step_01" get "/.well-known/core?ct=40" []
    ∷ []
