-- ===== src/Flconcpb/Dispatch/Services.antt =====
-- flconc/net/flconcpb/flconcpb_rpc_dispatcher.cc: the map of services.
use flconc.Base.{
  ◌≡◌, refl, sym, ap, ◌∙◌, Bytes, List, [], ◌∷◌, Option, if◌then◌else◌, same_bytes, same_bytes→eq,
  same_bytes_refl, Bool-cases, inl, inr,
}
use flconc.Flconcpb.Dispatch.{Service, Entry, find_service, register_service}

-- After `registerService` the name finds the new service, and every other name what it found before.
pub find_service-register_service :
    (name other : Bytes) (service : Option Service) (es : List Entry)
    → find_service other (register_service name service es)
      ≡ (if same_bytes name other then service else find_service other es)
unfolding find_service register_service
find_service-register_service name other service [] = refl
find_service-register_service name other service (e ∷ es) =
    elim (Bool-cases (same_bytes e.name name)) [
      | inl h ↦
          let same : e.name ≡ name = same_bytes→eq e.name name h in
          rw h (
            rw same
              (elim (Bool-cases (same_bytes name other)) [ inl g ↦ rw g refl | inr g ↦ rw g refl ]))
      | inr h ↦
          rw (h, find_service-register_service name other service es)
            (elim (Bool-cases (same_bytes e.name other)) [
              | inl g ↦ rw g (elim (Bool-cases (same_bytes name other)) [
                | inl q ↦
                    let is : e.name ≡ name =
                      same_bytes→eq e.name other g ∙ sym (same_bytes→eq name other q) in
                    cc (sym h ∙ ap (λ n. same_bytes n name) is ∙ same_bytes_refl name)
                | inr q ↦ rw q refl
              ])
              | inr g ↦ rw g refl
            ])
    ]
