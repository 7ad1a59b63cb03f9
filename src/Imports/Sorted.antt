-- ===== src/Imports/Sorted.antt =====
-- The import of all files against the imports by kind of each file.
use ioppytest.Prelude.{◌≡◌, refl, ap, ◌∙◌, List, [], ◌∷◌, ◌++◌}
use ioppytest.Testcase.{Testcase}
use ioppytest.TestConfig.{TestConfig}
use ioppytest.Imports.{
  Document, Imported, get_test_cases_list_from_yaml, get_test_configurations_list_from_yaml,
  import_documents, import_test_description_from_yaml,
}

abbrev pub testcases_of : List Imported → List Testcase
testcases_of [] = []
testcases_of (Imported.testcase tc ∷ rest) = tc ∷ testcases_of rest
testcases_of (Imported.configuration c ∷ rest) = testcases_of rest

abbrev pub configurations_of : List Imported → List TestConfig
configurations_of [] = []
configurations_of (Imported.testcase tc ∷ rest) = configurations_of rest
configurations_of (Imported.configuration c ∷ rest) = c ∷ configurations_of rest

abbrev pub over_files {ℓ} : {A : Type ℓ} → (List Document → List A) → List (List Document) → List A
over_files f [] = []
over_files f (file ∷ rest) = f file ++ over_files f rest

append_import :
    (file : List Document) (later : List Imported)
    → (testcases_of (import_documents file ++ later)
        ≡ get_test_cases_list_from_yaml file ++ testcases_of later)
      × (configurations_of (import_documents file ++ later)
          ≡ get_test_configurations_list_from_yaml file ++ configurations_of later)
unfolding import_documents get_test_cases_list_from_yaml get_test_configurations_list_from_yaml
append_import [] later = (refl, refl)
append_import (Document.testcase tc ∷ rest) later =
    let (e, f) = append_import rest later in (ap (◌∷◌ tc) e, f)
append_import (Document.configuration c ∷ rest) later =
    let (e, f) = append_import rest later in (e, ap (◌∷◌ c) f)
append_import (Document.unrecognised ∷ rest) later = append_import rest later

-- The import of a list of files gives the test cases and the configurations that the two
-- functions by kind give of each file, in the order of the files, and nothing else of the files.
pub import_agrees :
    (files : List (List Document))
    → (testcases_of (import_test_description_from_yaml files)
        ≡ over_files get_test_cases_list_from_yaml files)
      × (configurations_of (import_test_description_from_yaml files)
          ≡ over_files get_test_configurations_list_from_yaml files)
unfolding import_test_description_from_yaml
import_agrees [] = (refl, refl)
import_agrees (file ∷ rest) =
    let (e, f) = import_agrees rest in
    let (g, h) = append_import file (import_test_description_from_yaml rest) in
    (
      g ∙ ap (get_test_cases_list_from_yaml file ++◌) e,
      h ∙ ap (get_test_configurations_list_from_yaml file ++◌) f,
    )
