-- ===== src/Daemon/Routes/Runs.antt =====
-- Runs of the operations of internal/serviceapi/routes.go by many projects.
use devm.Base.{◌≡◌, List, [], ◌∷◌, arith, All, Bytes, bytes_eq}
use devm.Base.Assoc.{lookup}
use devm.Daemon.Routes.{
  Route, Routes, new_routes, hostnames_of, apply, apply_reserved_route, remove,
}
use devm.Daemon.Routes.Reading.{AllOf}
use devm.Daemon.Routes.Owned.{IsOwned}
use devm.Daemon.Routes.Steps.{apply-IsOwned, apply_reserved_route-IsOwned, remove-IsOwned}

-- What the projects do to the table.
pub data Op : Type 0 where
  op_apply : Bytes → List Route → Op
  op_apply_reserved : Bytes → Route → Op
  op_remove : Bytes → Op

unfoldable pub step : Op → Routes → Routes
step (op_apply project items) r = (apply project items r).1
step (op_apply_reserved project route) r = (apply_reserved_route project route r).1
step (op_remove project) r = remove project r

unfoldable pub run : List Op → Routes → Routes
unfolding step
run [] r = r
run (o ∷ os) r = run os (step o r)

-- The routes that a project registers carry its name, as all callers set it.
abbrev pub IsHonest : Op → Type 0
IsHonest (op_apply project items) = AllOf project items
IsHonest (op_apply_reserved project route) = route.project ≡ project
IsHonest (op_remove project) = Unit

abbrev pub actor : Op → Bytes
actor (op_apply project items) = project
actor (op_apply_reserved project route) = project
actor (op_remove project) = project

pub step-IsOwned : (o : Op) (r : Routes) → IsOwned r → IsHonest o → IsOwned (step o r)
unfolding step
step-IsOwned (op_apply project items) r own honest = apply-IsOwned project items r own honest
step-IsOwned (op_apply_reserved project route) r own honest =
    apply_reserved_route-IsOwned project route r own honest
step-IsOwned (op_remove project) r own honest = remove-IsOwned project r own

new_routes-IsOwned : (tld : Bytes) → IsOwned (new_routes tld)
unfolding new_routes hostnames_of lookup
new_routes-IsOwned tld = record {
  named = λ h rt e. absurd (cc e);
  listed = λ p h. ground arith;
  exposed = λ h rt e. absurd (cc e);
}

pub run-IsOwned_from :
    (os : List Op) (r : Routes) → IsOwned r → All IsHonest os → IsOwned (run os r)
unfolding run
run-IsOwned_from [] r own honest = own
run-IsOwned_from (o ∷ os) r own (here, honest) =
    run-IsOwned_from os (step o r) (step-IsOwned o r own here) honest

-- Whatever projects do to the new table, with routes that carry their own name, a project lists a
-- hostname if and only if the hostname's route is the project's, each route stands at its own
-- hostname, and the LAN map holds only routes that opted in, of hostnames that their project
-- still owns.
pub run-IsOwned : (tld : Bytes) (os : List Op) → All IsHonest os → IsOwned (run os (new_routes tld))
run-IsOwned tld os honest = run-IsOwned_from os (new_routes tld) (new_routes-IsOwned tld) honest
