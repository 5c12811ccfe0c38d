-- ===== src/Connectors/Fips/Two.antt =====
-- api/internal/connectors/fips.go, fipsCountry from "ec" to "liberia".
use sentilyzer.Prelude.{[], ◌∷◌, Str}
use sentilyzer.Prelude.Text.{codes}
use sentilyzer.Prelude.Maps.{Map}

unfoldable pub fips_two : Map Str Str
fips_two =
    (codes "ec", codes "EC")
    ∷ (codes "egypt", codes "EG")
    ∷ (codes "eg", codes "EG")
    ∷ (codes "el salvador", codes "ES")
    ∷ (codes "sv", codes "ES")
    ∷ (codes "equatorial guinea", codes "EK")
    ∷ (codes "gq", codes "EK")
    ∷ (codes "eritrea", codes "ER")
    ∷ (codes "er", codes "ER")
    ∷ (codes "estonia", codes "EN")
    ∷ (codes "ee", codes "EN")
    ∷ (codes "eswatini", codes "WZ")
    ∷ (codes "swaziland", codes "WZ")
    ∷ (codes "sz", codes "WZ")
    ∷ (codes "ethiopia", codes "ET")
    ∷ (codes "et", codes "ET")
    ∷ (codes "falkland islands (malvinas)", codes "FK")
    ∷ (codes "falkland islands", codes "FK")
    ∷ (codes "fk", codes "FK")
    ∷ (codes "faroe islands", codes "FO")
    ∷ (codes "fo", codes "FO")
    ∷ (codes "fiji", codes "FJ")
    ∷ (codes "fj", codes "FJ")
    ∷ (codes "finland", codes "FI")
    ∷ (codes "fi", codes "FI")
    ∷ (codes "france", codes "FR")
    ∷ (codes "fr", codes "FR")
    ∷ (codes "french guiana", codes "FG")
    ∷ (codes "gf", codes "FG")
    ∷ (codes "french polynesia", codes "FP")
    ∷ (codes "pf", codes "FP")
    ∷ (codes "french southern territories", codes "FS")
    ∷ (codes "tf", codes "FS")
    ∷ (codes "gabon", codes "GB")
    ∷ (codes "ga", codes "GB")
    ∷ (codes "gambia", codes "GA")
    ∷ (codes "gm", codes "GA")
    ∷ (codes "georgia", codes "GG")
    ∷ (codes "ge", codes "GG")
    ∷ (codes "germany", codes "GM")
    ∷ (codes "de", codes "GM")
    ∷ (codes "ghana", codes "GH")
    ∷ (codes "gh", codes "GH")
    ∷ (codes "gibraltar", codes "GI")
    ∷ (codes "gi", codes "GI")
    ∷ (codes "greece", codes "GR")
    ∷ (codes "gr", codes "GR")
    ∷ (codes "greenland", codes "GL")
    ∷ (codes "gl", codes "GL")
    ∷ (codes "grenada", codes "GJ")
    ∷ (codes "gd", codes "GJ")
    ∷ (codes "guadeloupe", codes "GP")
    ∷ (codes "gp", codes "GP")
    ∷ (codes "guam", codes "GQ")
    ∷ (codes "gu", codes "GQ")
    ∷ (codes "guatemala", codes "GT")
    ∷ (codes "gt", codes "GT")
    ∷ (codes "guernsey", codes "GK")
    ∷ (codes "gg", codes "GK")
    ∷ (codes "guinea", codes "GV")
    ∷ (codes "gn", codes "GV")
    ∷ (codes "guinea-bissau", codes "PU")
    ∷ (codes "gw", codes "PU")
    ∷ (codes "guyana", codes "GY")
    ∷ (codes "gy", codes "GY")
    ∷ (codes "haiti", codes "HA")
    ∷ (codes "ht", codes "HA")
    ∷ (codes "heard island and mcdonald islands", codes "HM")
    ∷ (codes "hm", codes "HM")
    ∷ (codes "holy see", codes "VT")
    ∷ (codes "vatican city", codes "VT")
    ∷ (codes "vatican", codes "VT")
    ∷ (codes "va", codes "VT")
    ∷ (codes "honduras", codes "HO")
    ∷ (codes "hn", codes "HO")
    ∷ (codes "hong kong", codes "HK")
    ∷ (codes "hk", codes "HK")
    ∷ (codes "hungary", codes "HU")
    ∷ (codes "hu", codes "HU")
    ∷ (codes "iceland", codes "IC")
    ∷ (codes "is", codes "IC")
    ∷ (codes "india", codes "IN")
    ∷ (codes "in", codes "IN")
    ∷ (codes "indonesia", codes "ID")
    ∷ (codes "id", codes "ID")
    ∷ (codes "iran (islamic republic of)", codes "IR")
    ∷ (codes "iran", codes "IR")
    ∷ (codes "ir", codes "IR")
    ∷ (codes "iraq", codes "IZ")
    ∷ (codes "iq", codes "IZ")
    ∷ (codes "ireland", codes "EI")
    ∷ (codes "ie", codes "EI")
    ∷ (codes "isle of man", codes "IM")
    ∷ (codes "im", codes "IM")
    ∷ (codes "israel", codes "IS")
    ∷ (codes "il", codes "IS")
    ∷ (codes "italy", codes "IT")
    ∷ (codes "it", codes "IT")
    ∷ (codes "jamaica", codes "JM")
    ∷ (codes "jm", codes "JM")
    ∷ (codes "japan", codes "JA")
    ∷ (codes "jp", codes "JA")
    ∷ (codes "jersey", codes "JE")
    ∷ (codes "je", codes "JE")
    ∷ (codes "jordan", codes "JO")
    ∷ (codes "jo", codes "JO")
    ∷ (codes "kazakhstan", codes "KZ")
    ∷ (codes "kz", codes "KZ")
    ∷ (codes "kenya", codes "KE")
    ∷ (codes "ke", codes "KE")
    ∷ (codes "kiribati", codes "KR")
    ∷ (codes "ki", codes "KR")
    ∷ (codes "korea (democratic people's republic of)", codes "KN")
    ∷ (codes "north korea", codes "KN")
    ∷ (codes "kp", codes "KN")
    ∷ (codes "korea, republic of", codes "KS")
    ∷ (codes "south korea", codes "KS")
    ∷ (codes "kr", codes "KS")
    ∷ (codes "kosovo", codes "KV")
    ∷ (codes "kuwait", codes "KU")
    ∷ (codes "kw", codes "KU")
    ∷ (codes "kyrgyzstan", codes "KG")
    ∷ (codes "kg", codes "KG")
    ∷ (codes "lao people's democratic republic", codes "LA")
    ∷ (codes "laos", codes "LA")
    ∷ (codes "la", codes "LA")
    ∷ (codes "latvia", codes "LG")
    ∷ (codes "lv", codes "LG")
    ∷ (codes "lebanon", codes "LE")
    ∷ (codes "lb", codes "LE")
    ∷ (codes "lesotho", codes "LT")
    ∷ (codes "ls", codes "LT")
    ∷ (codes "liberia", codes "LI")
    ∷ []
