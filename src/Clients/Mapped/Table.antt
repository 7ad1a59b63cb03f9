-- ===== src/Clients/Mapped/Table.antt =====
-- The tables of automation/coap_client_coapthon/automated_iut.py,
-- automation/coap_client_californium/automated_iut.py and
-- automation/onem2m_adn_etsi_implementation/automated_iut.py: the test case for a stimuli.
use Prim.Native.String.{String}
use ioppytest.Prelude.{[], ◌∷◌, Text, codes, Dict}

abbrev pair : String → String → Text × Text
pair step testcase = (codes step, codes testcase)

abbrev pub coapthon_map : Dict Text
coapthon_map =
    pair "TD_COAP_CORE_01_step_01" "test_td_coap_core_01"
    ∷ pair "TD_COAP_CORE_02_step_01" "test_td_coap_core_02"
    ∷ pair "TD_COAP_CORE_03_step_01" "test_td_coap_core_03"
    ∷ pair "TD_COAP_CORE_04_step_01" "test_td_coap_core_04"
    ∷ pair "TD_COAP_CORE_05_step_01" "test_td_coap_core_05"
    ∷ pair "TD_COAP_CORE_06_step_01" "test_td_coap_core_06"
    ∷ pair "TD_COAP_CORE_07_step_01" "test_td_coap_core_07"
    ∷ pair "TD_COAP_CORE_08_step_01" "test_td_coap_core_08"
    ∷ pair "TD_COAP_CORE_09_step_01" "test_td_coap_core_09"
    ∷ pair "TD_COAP_CORE_10_step_01" "test_td_coap_core_10"
    ∷ pair "TD_COAP_CORE_11_step_01" "test_td_coap_core_11"
    ∷ pair "TD_COAP_CORE_12_step_01" "test_td_coap_core_12"
    ∷ pair "TD_COAP_CORE_13_step_01" "test_td_coap_core_13"
    ∷ []

abbrev pub californium_map : Dict Text
californium_map =
    pair "TD_COAP_CORE_01_step_01" "TD_COAP_CORE_01"
    ∷ pair "TD_COAP_CORE_02_step_01" "TD_COAP_CORE_02"
    ∷ pair "TD_COAP_CORE_03_step_01" "TD_COAP_CORE_03"
    ∷ pair "TD_COAP_CORE_04_step_01" "TD_COAP_CORE_04"
    ∷ pair "TD_COAP_CORE_05_step_01" "TD_COAP_CORE_05"
    ∷ pair "TD_COAP_CORE_06_step_01" "TD_COAP_CORE_06"
    ∷ pair "TD_COAP_CORE_07_step_01" "TD_COAP_CORE_07"
    ∷ pair "TD_COAP_CORE_08_step_01" "TD_COAP_CORE_08"
    ∷ pair "TD_COAP_CORE_09_step_01" "TD_COAP_CORE_09"
    ∷ pair "TD_COAP_CORE_10_step_01" "TD_COAP_CORE_10"
    ∷ pair "TD_COAP_CORE_11_step_01" "TD_COAP_CORE_11"
    ∷ pair "TD_COAP_CORE_12_step_01" "TD_COAP_CORE_12"
    ∷ pair "TD_COAP_CORE_13_step_01" "TD_COAP_CORE_13"
    ∷ pair "TD_COAP_CORE_14_step_01" "TD_COAP_CORE_14"
    ∷ pair "TD_COAP_CORE_17_step_01" "TD_COAP_CORE_17"
    ∷ pair "TD_COAP_CORE_18_step_01" "TD_COAP_CORE_18"
    ∷ pair "TD_COAP_CORE_19_step_01" "TD_COAP_CORE_19"
    ∷ pair "TD_COAP_CORE_20_step_01" "TD_COAP_CORE_20"
    ∷ pair "TD_COAP_CORE_21_step_01" "TD_COAP_CORE_21"
    ∷ pair "TD_COAP_CORE_22_step_01" "TD_COAP_CORE_22"
    ∷ pair "TD_COAP_CORE_23_step_01" "TD_COAP_CORE_23"
    ∷ []

abbrev pub adn_map : Dict Text
adn_map =
    pair "TD_M2M_NH_01_step_01" "TD_M2M_NH_01"
    ∷ pair "TD_M2M_NH_06_step_01" "TD_M2M_NH_06"
    ∷ pair "TD_M2M_NH_07_step_01" "TD_M2M_NH_07"
    ∷ pair "TD_M2M_NH_08_step_01" "TD_M2M_NH_08"
    ∷ pair "TD_M2M_NH_09_step_01" "TD_M2M_NH_09"
    ∷ pair "TD_M2M_NH_10_step_01" "TD_M2M_NH_10"
    ∷ pair "TD_M2M_NH_11_step_01" "TD_M2M_NH_11"
    ∷ pair "TD_M2M_NH_12_step_01" "TD_M2M_NH_12"
    ∷ pair "TD_M2M_NH_13_step_01" "TD_M2M_NH_13"
    ∷ pair "TD_M2M_NH_14_step_01" "TD_M2M_NH_14"
    ∷ pair "TD_M2M_NH_15_step_01" "TD_M2M_NH_15"
    ∷ pair "TD_M2M_NH_17_step_01" "TD_M2M_NH_17"
    ∷ pair "TD_M2M_NH_49_step_01" "TD_M2M_NH_49"
    ∷ pair "TD_M2M_NH_50_step_01" "TD_M2M_NH_50"
    ∷ pair "TD_M2M_NH_71_step_01" "TD_M2M_NH_71"
    ∷ pair "TD_M2M_NH_72_step_01" "TD_M2M_NH_72"
    ∷ pair "TD_M2M_NH_18_step_01" "TD_M2M_NH_18"
    ∷ pair "TD_M2M_NH_19_step_01" "TD_M2M_NH_19"
    ∷ pair "TD_M2M_NH_20_step_01" "TD_M2M_NH_20"
    ∷ pair "TD_M2M_NH_21_step_01" "TD_M2M_NH_21"
    ∷ pair "TD_M2M_NH_22_step_01" "TD_M2M_NH_22"
    ∷ pair "TD_M2M_NH_23_step_01" "TD_M2M_NH_23"
    ∷ pair "TD_M2M_NH_24_step_01" "TD_M2M_NH_24"
    ∷ pair "TD_M2M_NH_25_step_01" "TD_M2M_NH_25"
    ∷ pair "TD_M2M_NH_26_step_01" "TD_M2M_NH_26"
    ∷ pair "TD_M2M_NH_27_step_01" "TD_M2M_NH_27"
    ∷ pair "TD_M2M_NH_28_step_01" "TD_M2M_NH_28"
    ∷ pair "TD_M2M_NH_29_step_01" "TD_M2M_NH_29"
    ∷ pair "TD_M2M_NH_30_step_01" "TD_M2M_NH_30"
    ∷ pair "TD_M2M_NH_31_step_01" "TD_M2M_NH_31"
    ∷ pair "TD_M2M_NH_32_step_01" "TD_M2M_NH_32"
    ∷ pair "TD_M2M_NH_33_step_01" "TD_M2M_NH_33"
    ∷ pair "TD_M2M_NH_34_step_01" "TD_M2M_NH_34"
    ∷ pair "TD_M2M_NH_35_step_01" "TD_M2M_NH_36"
    ∷ pair "TD_M2M_NH_36_step_01" "TD_M2M_NH_36"
    ∷ pair "TD_M2M_NH_37_step_01" "TD_M2M_NH_37"
    ∷ pair "TD_M2M_NH_38_step_01" "TD_M2M_NH_38"
    ∷ []
