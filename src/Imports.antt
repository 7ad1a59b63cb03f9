-- ===== src/Imports.antt =====
-- The import of test cases and configurations of ioppytest/test_suite/testsuite.py, from the
-- documents that the YAML loader makes of each file. The loader and the files are parameters: a
-- file is here the list of its documents.
pub mod Sorted
use ioppytest.Prelude.{List, [], ◌∷◌, ◌++◌}
use ioppytest.Testcase.{Testcase}
use ioppytest.TestConfig.{TestConfig}

pub data Document : Type 0 where
  testcase : Testcase → Document
  configuration : TestConfig → Document
  unrecognised : Document

-- An element of `td_list`
pub data Imported : Type 0 where
  testcase : Testcase → Imported
  configuration : TestConfig → Imported

unfoldable pub get_test_cases_list_from_yaml : List Document → List Testcase
get_test_cases_list_from_yaml [] = []
get_test_cases_list_from_yaml (Document.testcase tc ∷ rest) =
    tc ∷ get_test_cases_list_from_yaml rest
get_test_cases_list_from_yaml (_ ∷ rest) = get_test_cases_list_from_yaml rest

unfoldable pub get_test_configurations_list_from_yaml : List Document → List TestConfig
get_test_configurations_list_from_yaml [] = []
get_test_configurations_list_from_yaml (Document.configuration c ∷ rest) =
    c ∷ get_test_configurations_list_from_yaml rest
get_test_configurations_list_from_yaml (_ ∷ rest) = get_test_configurations_list_from_yaml rest

-- The loop over the documents of one file.
unfoldable pub import_documents : List Document → List Imported
import_documents [] = []
import_documents (Document.testcase tc ∷ rest) = Imported.testcase tc ∷ import_documents rest
import_documents (Document.configuration c ∷ rest) =
    Imported.configuration c ∷ import_documents rest
import_documents (Document.unrecognised ∷ rest) = import_documents rest

-- The loop over the files.
unfoldable pub import_test_description_from_yaml : List (List Document) → List Imported
unfolding import_documents
import_test_description_from_yaml [] = []
import_test_description_from_yaml (file ∷ rest) =
    import_documents file ++ import_test_description_from_yaml rest
