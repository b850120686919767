-- ===== src/Connector/File/Laws.antt =====
-- src/file-connector.ts: what a call of `submit` may do, and when two calls are the same.
use ensen_flow.Common.{
  String, ◌≡◌, inl, inr, refl, ap, Option, none, List, ok, Result-cases, >>=-eq-ok,
}
use ensen_flow.Value.{Value}
use ensen_flow.Hygiene.{Runtime}
use ensen_flow.Connector.Idempotency.Laws.{begin-unknown}
use ensen_flow.Connector.Idempotency.{Store, Begun, replayed, conflict, joins, starts, begin}
use ensen_flow.Connector.File.{
  LocalFileSubmitRequest, Node, Roots, validate_submit_request, normalize_allowed_roots,
}
use ensen_flow.Connector.File.Allowed.{IsAllowed, AreAllowed, normalize_allowed_roots-AreAllowed}
use ensen_flow.Connector.File.Contained.{Contained, resolve-Contained, ok-inj}
use ensen_flow.Connector.File.Resolve.{ResolvedLocalFileRequest, resolve_local_file_request}
use ensen_flow.Connector.File.Receipt.{
  LocalFileReceipt, validate_local_file_content, execute_file_request, create_local_file_receipt,
}
use ensen_flow.Connector.File.Submit.{
  LocalFileConnector, create_local_file_connector, fingerprint_file_request, finish, go_on,
  submit_file,
}

module _ {W : Type 0} (node : Node W) (js : Runtime) where
  -- the world after a call on the files of `w` and the receipts of `s`
  pub data Acts (roots : Roots) (fs : List (String × Value)) (w : W) (s : Store LocalFileReceipt)
      : W → Type 0 where
    leaves : Acts roots fs w s w
    acts :
        (request : LocalFileSubmitRequest) (resolved : ResolvedLocalFileRequest)
        → validate_submit_request fs ≡ ok request
        → resolved.file ≡ request.file
        → (contained : Contained node roots request.file w resolved.absolute_path)
        → IsAllowed node contained.root
        → validate_local_file_content js request ≡ ok tt
        → s.records request.idempotency_key ≡ none
        → Acts roots fs w s (execute_file_request node resolved w).1

  create-Acts :
      (id : String) (roots : Roots) (fs : List (String × Value)) (w : W)
      (s : Store LocalFileReceipt) (request : LocalFileSubmitRequest)
      (resolved : ResolvedLocalFileRequest)
      → validate_submit_request fs ≡ ok request
      → resolved.file ≡ request.file
      → (contained : Contained node roots request.file w resolved.absolute_path)
      → IsAllowed node contained.root
      → s.records request.idempotency_key ≡ none
      → Acts roots fs w s (create_local_file_receipt node js id request resolved w).1
  unfolding create_local_file_receipt
  create-Acts id roots fs w s request resolved valid same contained allowed unknown =
      elim (Result-cases (validate_local_file_content js request)) [
        | inl (t, safe) ↦ rw safe (acts request resolved valid same contained allowed safe unknown)
        | inr (e, unsafe) ↦ rw unsafe leaves
      ]

  abbrev AreGiven : LocalFileConnector → Type 0
  AreGiven connector = AreAllowed node connector.allowed_roots

  go_on-Acts :
      (connector : LocalFileConnector) (fs : List (String × Value)) (w : W)
      (s : Store LocalFileReceipt) (request : LocalFileSubmitRequest)
      (resolved : ResolvedLocalFileRequest)
      → validate_submit_request fs ≡ ok request
      → resolve_local_file_request node request.file connector.allowed_roots w ≡ ok resolved
      → AreGiven connector
      → (fingerprint : String) (b : Begun LocalFileReceipt × Store LocalFileReceipt)
      → begin request.idempotency_key fingerprint s ≡ b
      → Acts connector.allowed_roots fs w s
          (go_on node js connector request resolved fingerprint b w).1
  unfolding go_on finish
  go_on-Acts connector fs w s request resolved valid accepted given fp (replayed r, s') h = leaves
  go_on-Acts connector fs w s request resolved valid accepted given fp (conflict, s') h = leaves
  go_on-Acts connector fs w s request resolved valid accepted given fp (joins n, s') h = leaves
  go_on-Acts connector fs w s request resolved valid accepted given fp (starts n, s') h =
      let (same, contained) =
        resolve-Contained node request.file connector.allowed_roots w resolved accepted in
      create-Acts connector.connector_id connector.allowed_roots fs w s request resolved valid same
        contained (given request.file.root_alias contained.root contained.configures)
        (begin-unknown request.idempotency_key fp s s' n h)

  allowed :
      (connector_id : Option String) (allowed_roots : Value) (connector : LocalFileConnector)
      → create_local_file_connector node connector_id allowed_roots ≡ ok connector
      → AreGiven connector
  unfolding create_local_file_connector
  allowed connector_id allowed_roots connector h =
      let (roots, given, made) = >>=-eq-ok (normalize_allowed_roots node allowed_roots) _ h in
      let same : roots ≡ connector.allowed_roots = ap (λ c. c.allowed_roots) (ok-inj _ refl made) in
      rw same at (normalize_allowed_roots-AreAllowed node allowed_roots roots given)

  -- A connector that was created with these roots, on any files and receipts: a call of `submit`
  -- leaves the files as they are, or it carried out the action of a valid request that has no
  -- receipt yet, whose content nothing unsafe is in, at a path that is under a root it was given,
  -- an absolute path that is no root of the file system, and to which no symbolic link leads.
  pub submit_file-Acts :
      (connector_id : Option String) (allowed_roots : Value) (connector : LocalFileConnector)
      → create_local_file_connector node connector_id allowed_roots ≡ ok connector
      → (fs : List (String × Value)) (w : W) (s : Store LocalFileReceipt)
      → Acts connector.allowed_roots fs w s (submit_file node js connector fs w s).1
  unfolding submit_file go_on finish create_local_file_connector
  submit_file-Acts connector_id allowed_roots connector created fs w s =
      elim (Result-cases (validate_submit_request fs)) [
        | inr (message, invalid) ↦ rw invalid leaves
        | inl (request, valid) ↦
            elim (Result-cases
              (resolve_local_file_request node request.file connector.allowed_roots w)) [
                | inr (message, refused) ↦ rw (valid, refused) leaves
                | inl (resolved, accepted) ↦
                    rw (valid, accepted)
                      (go_on-Acts connector fs w s request resolved valid accepted
                        (allowed connector_id allowed_roots connector created)
                        (fingerprint_file_request js request resolved.sanitized_path) (begin _ _ s)
                        refl)
              ]
      ]
