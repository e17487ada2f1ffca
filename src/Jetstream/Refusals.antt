-- ===== src/Jetstream/Refusals.antt =====
-- What follows from a validation that refused nothing.
use go_service_template_rest.Base.{◌≡◌, refl, Bool, true, false, Option, none, some, if◌then◌else◌}
use go_service_template_rest.Base.GoError.{Err}
use go_service_template_rest.Jetstream.Wire.{first_error}

pub first_error-none : (a b : Option Err) → first_error a b ≡ none → (a ≡ none) × (b ≡ none)
first_error-none none b h = (refl, h)
first_error-none (some e) b h = cc

pub not-refused :
    (b : Bool) (e : Err) (next : Option Err)
    → (if b then some e else next) ≡ none
    → (b ≡ false) × (next ≡ none)
not-refused true e next h = cc
not-refused false e next h = (refl, h)
