-- ===== src/Common/Tests.antt =====
-- Addresses that the recogniser takes and refuses.
use core_kernel.Prelude.{◌≡◌, refl, none, some, codes, trim}
use core_kernel.Common.Email.{create_email}

accepts_address :
    create_email (λ s. s) (codes " awa@example-mail.gn ") ≡ some (codes "awa@example-mail.gn")
unfolding create_email trim
accepts_address = refl

refuses_bare_host : create_email (λ s. s) (codes "awa@localhost") ≡ none
unfolding create_email trim
refuses_bare_host = refl
