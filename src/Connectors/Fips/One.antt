-- ===== src/Connectors/Fips/One.antt =====
-- api/internal/connectors/fips.go, fipsCountry from "afghanistan" to "ecuador".
use sentilyzer.Prelude.{[], ◌∷◌, Str}
use sentilyzer.Prelude.Text.{codes}
use sentilyzer.Prelude.Maps.{Map}

unfoldable pub fips_one : Map Str Str
fips_one =
    (codes "afghanistan", codes "AF")
    ∷ (codes "af", codes "AF")
    ∷ (codes "albania", codes "AL")
    ∷ (codes "al", codes "AL")
    ∷ (codes "algeria", codes "AG")
    ∷ (codes "dz", codes "AG")
    ∷ (codes "american samoa", codes "AQ")
    ∷ (codes "as", codes "AQ")
    ∷ (codes "andorra", codes "AN")
    ∷ (codes "ad", codes "AN")
    ∷ (codes "angola", codes "AO")
    ∷ (codes "ao", codes "AO")
    ∷ (codes "anguilla", codes "AV")
    ∷ (codes "ai", codes "AV")
    ∷ (codes "antarctica", codes "AY")
    ∷ (codes "aq", codes "AY")
    ∷ (codes "antigua and barbuda", codes "AC")
    ∷ (codes "ag", codes "AC")
    ∷ (codes "argentina", codes "AR")
    ∷ (codes "ar", codes "AR")
    ∷ (codes "armenia", codes "AM")
    ∷ (codes "am", codes "AM")
    ∷ (codes "aruba", codes "AA")
    ∷ (codes "aw", codes "AA")
    ∷ (codes "australia", codes "AS")
    ∷ (codes "au", codes "AS")
    ∷ (codes "austria", codes "AU")
    ∷ (codes "at", codes "AU")
    ∷ (codes "azerbaijan", codes "AJ")
    ∷ (codes "az", codes "AJ")
    ∷ (codes "bahamas", codes "BF")
    ∷ (codes "bs", codes "BF")
    ∷ (codes "bahrain", codes "BA")
    ∷ (codes "bh", codes "BA")
    ∷ (codes "bangladesh", codes "BG")
    ∷ (codes "bd", codes "BG")
    ∷ (codes "barbados", codes "BB")
    ∷ (codes "bb", codes "BB")
    ∷ (codes "belarus", codes "BO")
    ∷ (codes "by", codes "BO")
    ∷ (codes "belgium", codes "BE")
    ∷ (codes "be", codes "BE")
    ∷ (codes "belize", codes "BH")
    ∷ (codes "bz", codes "BH")
    ∷ (codes "benin", codes "BN")
    ∷ (codes "bj", codes "BN")
    ∷ (codes "bermuda", codes "BD")
    ∷ (codes "bm", codes "BD")
    ∷ (codes "bhutan", codes "BT")
    ∷ (codes "bt", codes "BT")
    ∷ (codes "bolivia (plurinational state of)", codes "BL")
    ∷ (codes "bolivia", codes "BL")
    ∷ (codes "bo", codes "BL")
    ∷ (codes "bosnia and herzegovina", codes "BK")
    ∷ (codes "ba", codes "BK")
    ∷ (codes "botswana", codes "BC")
    ∷ (codes "bw", codes "BC")
    ∷ (codes "bouvet island", codes "BV")
    ∷ (codes "bv", codes "BV")
    ∷ (codes "brazil", codes "BR")
    ∷ (codes "br", codes "BR")
    ∷ (codes "british indian ocean territory", codes "IO")
    ∷ (codes "io", codes "IO")
    ∷ (codes "brunei darussalam", codes "BX")
    ∷ (codes "brunei", codes "BX")
    ∷ (codes "bn", codes "BX")
    ∷ (codes "bulgaria", codes "BU")
    ∷ (codes "bg", codes "BU")
    ∷ (codes "burkina faso", codes "UV")
    ∷ (codes "bf", codes "UV")
    ∷ (codes "burundi", codes "BY")
    ∷ (codes "bi", codes "BY")
    ∷ (codes "cabo verde", codes "CV")
    ∷ (codes "cape verde", codes "CV")
    ∷ (codes "cv", codes "CV")
    ∷ (codes "cambodia", codes "CB")
    ∷ (codes "kh", codes "CB")
    ∷ (codes "cameroon", codes "CM")
    ∷ (codes "cm", codes "CM")
    ∷ (codes "canada", codes "CA")
    ∷ (codes "ca", codes "CA")
    ∷ (codes "cayman islands", codes "CJ")
    ∷ (codes "ky", codes "CJ")
    ∷ (codes "central african republic", codes "CT")
    ∷ (codes "cf", codes "CT")
    ∷ (codes "chad", codes "CD")
    ∷ (codes "td", codes "CD")
    ∷ (codes "chile", codes "CI")
    ∷ (codes "cl", codes "CI")
    ∷ (codes "china", codes "CH")
    ∷ (codes "cn", codes "CH")
    ∷ (codes "christmas island", codes "KT")
    ∷ (codes "cx", codes "KT")
    ∷ (codes "cocos (keeling) islands", codes "CK")
    ∷ (codes "cocos islands", codes "CK")
    ∷ (codes "cc", codes "CK")
    ∷ (codes "colombia", codes "CO")
    ∷ (codes "co", codes "CO")
    ∷ (codes "comoros", codes "CN")
    ∷ (codes "km", codes "CN")
    ∷ (codes "congo", codes "CF")
    ∷ (codes "republic of the congo", codes "CF")
    ∷ (codes "cg", codes "CF")
    ∷ (codes "congo, democratic republic of the", codes "CG")
    ∷ (codes "democratic republic of the congo", codes "CG")
    ∷ (codes "dr congo", codes "CG")
    ∷ (codes "cd", codes "CG")
    ∷ (codes "cook islands", codes "CW")
    ∷ (codes "ck", codes "CW")
    ∷ (codes "costa rica", codes "CS")
    ∷ (codes "cr", codes "CS")
    ∷ (codes "côte d'ivoire", codes "IV")
    ∷ (codes "cote d'ivoire", codes "IV")
    ∷ (codes "ivory coast", codes "IV")
    ∷ (codes "ci", codes "IV")
    ∷ (codes "croatia", codes "HR")
    ∷ (codes "hr", codes "HR")
    ∷ (codes "cuba", codes "CU")
    ∷ (codes "cu", codes "CU")
    ∷ (codes "cyprus", codes "CY")
    ∷ (codes "cy", codes "CY")
    ∷ (codes "czechia", codes "EZ")
    ∷ (codes "czech republic", codes "EZ")
    ∷ (codes "cz", codes "EZ")
    ∷ (codes "denmark", codes "DA")
    ∷ (codes "dk", codes "DA")
    ∷ (codes "djibouti", codes "DJ")
    ∷ (codes "dj", codes "DJ")
    ∷ (codes "dominica", codes "DO")
    ∷ (codes "dm", codes "DO")
    ∷ (codes "dominican republic", codes "DR")
    ∷ (codes "do", codes "DR")
    ∷ (codes "ecuador", codes "EC")
    ∷ []
