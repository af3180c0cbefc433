-- ===== src/Core/Answers/Examples.antt =====
-- A test of the errors.
use xerock.Base.{refl, ◌≡◌, codes}
use xerock.Base.Int.{pos}
use xerock.Json.Tree.{tree}
use xerock.Json.Tree.Builder.{builder}
use xerock.Core.Answers.{resource_in_use, message, make_error_code}

in_use :
    make_error_code resource_in_use ≡ record { value = pos 21; message = codes "Resoruce in use" }
unfolding make_error_code message
in_use = refl
