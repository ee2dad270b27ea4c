-- ===== src/Protocol/Faithful.antt =====
-- The envelope that `from_payment_response` of src/oathcast/protocol.py makes.
use oathcast.Prelude.Exec.{ok, Sure, Sure-ok}
use oathcast.Prelude.Checked.{Sure-bind, Sure-guard}
use oathcast.Json.{Value, Host}
use oathcast.Protocol.Envelope.{
  protocol_receipt, from_payment_response, Receipt, Envelope, Attributes, receipt_of,
}
use oathcast.Prelude.{◌≡◌, String, Option, refl}

-- The envelope keeps the body and the receipt that was built from the response.
abbrev pub Same : Value → Receipt → Envelope → Type 0
Same body receipt e = (e.body ≡ body) × (e.receipt ≡ receipt)

protocol_receipt-Same : (r : Receipt) → Sure (λ r'. r' ≡ r) (protocol_receipt r)
unfolding protocol_receipt
protocol_receipt-Same r = search (Sure-guard (λ r'. r' ≡ r)) depth 14

pub envelope-Same :
    (h : Host) (a : Attributes) (route_mode : String) (registry : Option String)
    → Sure
        (Same a.body (receipt_of h a route_mode registry))
        (from_payment_response h a route_mode registry)
unfolding from_payment_response
envelope-Same h a route_mode registry =
    Sure-bind (Same a.body (receipt_of h a route_mode registry))
      (protocol_receipt (receipt_of h a route_mode registry))
      (λ receipt. ok (record { body = a.body; receipt = receipt }))
      (λ r e.
        let same =
          Sure-ok (λ r'. r' ≡ receipt_of h a route_mode registry) _ r e
            (protocol_receipt-Same (receipt_of h a route_mode registry)) in
        (refl, same))
