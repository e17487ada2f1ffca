-- ===== src/Failure/Tests.antt =====
-- The theorems about internal/failure at concrete inputs.
use go_service_template_rest.Base.{◌≡◌, refl, List, [], ◌∷◌, Option, none, some, codes, eq_bytes}
use go_service_template_rest.Base.Int.{pos}
use go_service_template_rest.Base.GoError.{Err, sentinel, errorf}
use go_service_template_rest.Failure.{Classification, Mapper, classify, contains, code_not_found}
use go_service_template_rest.Failure.Chain.{op, class_chain, trim_space}

abbrev missing : Err
missing = sentinel 1

abbrev answer : Classification
answer = record { code = code_not_found; detail = codes "no such row"; retry_after = pos 0 }

abbrev mappers : List (Option Mapper)
mappers = none ∷ some (λ e. none) ∷ some (λ e. some answer) ∷ []

classify-missing : classify missing mappers ≡ some answer
unfolding classify contains eq_bytes
classify-missing = refl

classify_unpublished :
    classify missing (some (λ e. some (record answer { code = codes "teapot" })) ∷ mappers) ≡ none
unfolding classify contains eq_bytes
classify_unpublished = refl

chain_of_op :
    class_chain (op (codes " load ") (some (errorf missing)))
    ≡ codes "load -> *fmt.wrapError -> *errors.errorString"
unfolding class_chain op trim_space
chain_of_op = refl
