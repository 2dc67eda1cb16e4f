-- ===== src/Pool/Tests.antt =====
-- A run of include/io_service_provide.h with three services.
use bserver.Base.{◌≡◌, [], ◌∷◌, refl, arith}
use bserver.Pool.{in_turn, take_services, io_service_provide, take_services_lem}

four_of_three : in_turn 4 0 3 ≡ 0 ∷ 1 ∷ 2 ∷ 0 ∷ []
unfolding in_turn
four_of_three = refl

take_services_lem_example :
    (take_services 4 (io_service_provide 3 8)).0 ≡ in_turn 4 0 (io_service_provide 3 8).size
take_services_lem_example = take_services_lem 3 8 4 (omega arith)
