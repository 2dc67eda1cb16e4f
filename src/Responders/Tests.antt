-- ===== src/Responders/Tests.antt =====
-- Runs of the handlers of httpclient/, embeded_python/ and the group handlers.
use bserver.Base.{◌≡◌, refl, [], ◌∷◌, Bytes, text, some}
use bserver.Message.{failed}
use bserver.Proto.{ServiceRequest}
use bserver.Responders.Package.{topic_url}
use bserver.Responders.GroupResponser.{group_parser}
use bserver.Responders.Samples.{sample}
use bserver.Responders.Answers.{group_parser_refuses}

reply_url :
    topic_url
      (text "http://r")
      (text "9")
      (text "/reviews?")
      (text "s")
      (text "1")
      (text "p")
      (text "d")
    ≡ text "http://r/9/reviews?sign=s&v=1&platform=p&device_id=d"
unfolding topic_url
reply_url = refl

group_parser_refuses_example :
    ((group_parser sample (27 ∷ []) []).0.status ≡ failed)
    × ((group_parser sample (27 ∷ []) []).1 ≡ [])
group_parser_refuses_example = group_parser_refuses sample (27 ∷ []) []

abbrev request_of : Bytes → ServiceRequest
request_of s = record { sessid = text "u"; service_type = 600; sn = text "n"; payload = some s }
