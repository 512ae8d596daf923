-- ===== src/Wordlist/Low.antt =====
-- The first half of the table of common/wordlist.py.
use sam_ken_x_dnssec_keytool.Prelude.{String, List, [], ◌∷◌}

unfoldable pub words_low : List (String × String)
words_low =
    ("aardvark", "adroitness")
    ∷ ("absurd", "adviser")
    ∷ ("accrue", "aftermath")
    ∷ ("acme", "aggregate")
    ∷ ("adrift", "alkali")
    ∷ ("adult", "almighty")
    ∷ ("afflict", "amulet")
    ∷ ("ahead", "amusement")
    ∷ ("aimless", "antenna")
    ∷ ("Algol", "applicant")
    ∷ ("allow", "Apollo")
    ∷ ("alone", "armistice")
    ∷ ("ammo", "article")
    ∷ ("ancient", "asteroid")
    ∷ ("apple", "Atlantic")
    ∷ ("artist", "atmosphere")
    ∷ ("assume", "autopsy")
    ∷ ("Athens", "Babylon")
    ∷ ("atlas", "backwater")
    ∷ ("Aztec", "barbecue")
    ∷ ("baboon", "belowground")
    ∷ ("backfield", "bifocals")
    ∷ ("backward", "bodyguard")
    ∷ ("banjo", "bookseller")
    ∷ ("beaming", "borderline")
    ∷ ("bedlamp", "bottomless")
    ∷ ("beehive", "Bradbury")
    ∷ ("beeswax", "bravado")
    ∷ ("befriend", "Brazilian")
    ∷ ("Belfast", "breakaway")
    ∷ ("berserk", "Burlington")
    ∷ ("billiard", "businessman")
    ∷ ("bison", "butterfat")
    ∷ ("blackjack", "Camelot")
    ∷ ("blockade", "candidate")
    ∷ ("blowtorch", "cannonball")
    ∷ ("bluebird", "Capricorn")
    ∷ ("bombast", "caravan")
    ∷ ("bookshelf", "caretaker")
    ∷ ("brackish", "celebrate")
    ∷ ("breadline", "cellulose")
    ∷ ("breakup", "certify")
    ∷ ("brickyard", "chambermaid")
    ∷ ("briefcase", "Cherokee")
    ∷ ("Burbank", "Chicago")
    ∷ ("button", "clergyman")
    ∷ ("buzzard", "coherence")
    ∷ ("cement", "combustion")
    ∷ ("chairlift", "commando")
    ∷ ("chatter", "company")
    ∷ ("checkup", "component")
    ∷ ("chisel", "concurrent")
    ∷ ("choking", "confidence")
    ∷ ("chopper", "conformist")
    ∷ ("Christmas", "congregate")
    ∷ ("clamshell", "consensus")
    ∷ ("classic", "consulting")
    ∷ ("classroom", "corporate")
    ∷ ("cleanup", "corrosion")
    ∷ ("clockwork", "councilman")
    ∷ ("cobra", "crossover")
    ∷ ("commence", "crucifix")
    ∷ ("concert", "cumbersome")
    ∷ ("cowbell", "customer")
    ∷ ("crackdown", "Dakota")
    ∷ ("cranky", "decadence")
    ∷ ("crowfoot", "December")
    ∷ ("crucial", "decimal")
    ∷ ("crumpled", "designing")
    ∷ ("crusade", "detector")
    ∷ ("cubic", "detergent")
    ∷ ("dashboard", "determine")
    ∷ ("deadbolt", "dictator")
    ∷ ("deckhand", "dinosaur")
    ∷ ("dogsled", "direction")
    ∷ ("dragnet", "disable")
    ∷ ("drainage", "disbelief")
    ∷ ("dreadful", "disruptive")
    ∷ ("drifter", "distortion")
    ∷ ("dropper", "document")
    ∷ ("drumbeat", "embezzle")
    ∷ ("drunken", "enchanting")
    ∷ ("Dupont", "enrollment")
    ∷ ("dwelling", "enterprise")
    ∷ ("eating", "equation")
    ∷ ("edict", "equipment")
    ∷ ("egghead", "escapade")
    ∷ ("eightball", "Eskimo")
    ∷ ("endorse", "everyday")
    ∷ ("endow", "examine")
    ∷ ("enlist", "existence")
    ∷ ("erase", "exodus")
    ∷ ("escape", "fascinate")
    ∷ ("exceed", "filament")
    ∷ ("eyeglass", "finicky")
    ∷ ("eyetooth", "forever")
    ∷ ("facial", "fortitude")
    ∷ ("fallout", "frequency")
    ∷ ("flagpole", "gadgetry")
    ∷ ("flatfoot", "Galveston")
    ∷ ("flytrap", "getaway")
    ∷ ("fracture", "glossary")
    ∷ ("framework", "gossamer")
    ∷ ("freedom", "graduate")
    ∷ ("frighten", "gravity")
    ∷ ("gazelle", "guitarist")
    ∷ ("Geiger", "hamburger")
    ∷ ("glitter", "Hamilton")
    ∷ ("glucose", "handiwork")
    ∷ ("goggles", "hazardous")
    ∷ ("goldfish", "headwaters")
    ∷ ("gremlin", "hemisphere")
    ∷ ("guidance", "hesitate")
    ∷ ("hamlet", "hideaway")
    ∷ ("highchair", "holiness")
    ∷ ("hockey", "hurricane")
    ∷ ("indoors", "hydraulic")
    ∷ ("indulge", "impartial")
    ∷ ("inverse", "impetus")
    ∷ ("involve", "inception")
    ∷ ("island", "indigo")
    ∷ ("jawbone", "inertia")
    ∷ ("keyboard", "infancy")
    ∷ ("kickoff", "inferno")
    ∷ ("kiwi", "informant")
    ∷ ("klaxon", "insincere")
    ∷ ("locale", "insurgent")
    ∷ ("lockup", "integrate")
    ∷ []
