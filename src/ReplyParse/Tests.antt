-- ===== src/ReplyParse/Tests.antt =====
-- The theorems of the SOAP argument parser at concrete requests.
use miniupnpd_sdn.Base.{true, codes}
use miniupnpd_sdn.ReplyParse.{parse_name_value}
use miniupnpd_sdn.ReplyParse.Bounds.{IsValid, parse_name_value-IsValid}

parse_name_value-IsValid_example : IsValid (parse_name_value (λ size. true) (codes "<a>1</a>") 8)
parse_name_value-IsValid_example = parse_name_value-IsValid (λ size. true) (codes "<a>1</a>") 8
