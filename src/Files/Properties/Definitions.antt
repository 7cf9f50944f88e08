-- ===== src/Files/Properties/Definitions.antt =====
-- The curated keys of `server.properties`: `PROPERTY_DEFINITIONS` of modules/files/properties.ts.
use renom.Prelude.{Bool, List, Option, String, Units, [], codes, false, none, some, true, ◌∷◌}
use renom.JsText.Number.{ℤ, pos, negsuc}

-- The kinds "boolean", "number", "enum" and "text".
pub data PropertyKind : Type 0 where
  flag number choice free_text : PropertyKind

pub record PropertyDefinition : Type 0 where
  pub key : Units
  pub label : String
  pub kind : PropertyKind
  pub help : String
  pub group : String
  pub options : Option (List Units)
  pub min : Option ℤ
  pub max : Option ℤ
  pub readonly : Bool

abbrev pub property_definitions : List PropertyDefinition
property_definitions =
    record {
      key = codes "motd";
      label = "Message of the day";
      kind = free_text;
      help = "Shown under the server name in the multiplayer list. Supports § colour codes.";
      group = "Identity";
      options = none;
      min = none;
      max = none;
      readonly = false;
    }
    ∷ record {
      key = codes "max-players";
      label = "Player slots";
      kind = number;
      help = "Maximum simultaneous players. Higher values cost memory.";
      group = "Player limits";
      options = none;
      min = some (pos 1);
      max = some (pos 10000);
      readonly = false;
    }
    ∷ record {
      key = codes "difficulty";
      label = "Difficulty";
      kind = choice;
      help = "Peaceful turns off hostile mobs.";
      group = "Gameplay";
      options = some (codes "peaceful" ∷ codes "easy" ∷ codes "normal" ∷ codes "hard" ∷ []);
      min = none;
      max = none;
      readonly = false;
    }
    ∷ record {
      key = codes "gamemode";
      label = "Default game mode";
      kind = choice;
      help = "The game mode new players start in.";
      group = "Gameplay";
      options =
          some (codes "survival" ∷ codes "creative" ∷ codes "adventure" ∷ codes "spectator" ∷ []);
      min = none;
      max = none;
      readonly = false;
    }
    ∷ record {
      key = codes "force-gamemode";
      label = "Force game mode on join";
      kind = flag;
      help = "Players switch to the default game mode every time they join.";
      group = "Gameplay";
      options = none;
      min = none;
      max = none;
      readonly = false;
    }
    ∷ record {
      key = codes "hardcore";
      label = "Hardcore";
      kind = flag;
      help = "Players become spectators when they die and cannot respawn.";
      group = "Gameplay";
      options = none;
      min = none;
      max = none;
      readonly = false;
    }
    ∷ record {
      key = codes "pvp";
      label = "PvP";
      kind = flag;
      help = "Whether players can damage each other.";
      group = "Gameplay";
      options = none;
      min = none;
      max = none;
      readonly = false;
    }
    ∷ record {
      key = codes "allow-flight";
      label = "Allow flying";
      kind = flag;
      help = "Required for most flight mods; without it players are kicked.";
      group = "Gameplay";
      options = none;
      min = none;
      max = none;
      readonly = false;
    }
    ∷ record {
      key = codes "spawn-animals";
      label = "Spawn animals";
      kind = flag;
      help = "Whether passive mobs spawn naturally.";
      group = "World";
      options = none;
      min = none;
      max = none;
      readonly = false;
    }
    ∷ record {
      key = codes "spawn-monsters";
      label = "Spawn monsters";
      kind = flag;
      help = "Whether hostile mobs spawn naturally.";
      group = "World";
      options = none;
      min = none;
      max = none;
      readonly = false;
    }
    ∷ record {
      key = codes "spawn-npcs";
      label = "Spawn villagers";
      kind = flag;
      help = "Whether villagers spawn in new villages.";
      group = "World";
      options = none;
      min = none;
      max = none;
      readonly = false;
    }
    ∷ record {
      key = codes "view-distance";
      label = "View distance";
      kind = number;
      help = "How many chunks players can see. Lowering it saves the most memory.";
      group = "World & performance";
      options = none;
      min = some (pos 3);
      max = some (pos 32);
      readonly = false;
    }
    ∷ record {
      key = codes "simulation-distance";
      label = "Simulation distance";
      kind = number;
      help = "How far from players the world keeps running. Farms and redstone stop outside it.";
      group = "World & performance";
      options = none;
      min = some (pos 3);
      max = some (pos 32);
      readonly = false;
    }
    ∷ record {
      key = codes "spawn-protection";
      label = "Spawn protection";
      kind = number;
      help = "Radius around spawn where only operators can build. Set to 0 to turn off.";
      group = "World & performance";
      options = none;
      min = some (pos 0);
      max = some (pos 10000);
      readonly = false;
    }
    ∷ record {
      key = codes "player-idle-timeout";
      label = "Idle kick (minutes)";
      kind = number;
      help = "Set to 0 to never kick idle players.";
      group = "World & performance";
      options = none;
      min = some (pos 0);
      max = some (pos 10000);
      readonly = false;
    }
    ∷ record {
      key = codes "enable-command-block";
      label = "Command blocks";
      kind = flag;
      help = "Command blocks only run when this is on.";
      group = "Who can join";
      options = none;
      min = none;
      max = none;
      readonly = false;
    }
    ∷ record {
      key = codes "white-list";
      label = "Whitelist";
      kind = flag;
      help = "Only players on the whitelist can join.";
      group = "Who can join";
      options = none;
      min = none;
      max = none;
      readonly = false;
    }
    ∷ record {
      key = codes "enforce-whitelist";
      label = "Kick players not on the whitelist";
      kind = flag;
      help = "Kicks online players who aren't on the whitelist when it's turned on.";
      group = "Who can join";
      options = none;
      min = none;
      max = none;
      readonly = false;
    }
    ∷ record {
      key = codes "online-mode";
      label = "Verify accounts with Mojang";
      kind = flag;
      help = "Turning this off allows non-premium accounts. Use the switch above instead.";
      group = "Who can join";
      options = none;
      min = none;
      max = none;
      readonly = false;
    }
    ∷ record {
      key = codes "enforce-secure-profile";
      label = "Require signed chat";
      kind = flag;
      help = "Turn off for Bedrock players and most non-premium setups.";
      group = "Who can join";
      options = none;
      min = none;
      max = none;
      readonly = false;
    }
    ∷ record {
      key = codes "allow-cheats";
      label = "Allow cheats";
      kind = flag;
      help = "Lets operators and command blocks use cheats in survival.";
      group = "Who can join";
      options = none;
      min = none;
      max = none;
      readonly = false;
    }
    ∷ record {
      key = codes "server-port";
      label = "Server port";
      kind = number;
      help =
          "Assigned by the panel from the server's allocation — change it on the Network tab, not here.";
      group = "Network";
      options = none;
      min = some (pos 1024);
      max = some (pos 65535);
      readonly = true;
    }
    ∷ record {
      key = codes "max-tick-time";
      label = "Watchdog timeout (ms)";
      kind = number;
      help = "-1 disables the watchdog that kills a hung server.";
      group = "Network";
      options = none;
      min = some (negsuc 0);
      max = some (pos 600000);
      readonly = false;
    }
    ∷ []
