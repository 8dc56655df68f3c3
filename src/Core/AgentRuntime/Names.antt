-- ===== src/Core/AgentRuntime/Names.antt =====
-- The lists of names of core/src/AgentRuntime.cpp, compared as on Windows.
use phynned.Prelude.{List, [], ◌∷◌, ◌&&◌, ◌||◌, not, Bool, false, map, take, any, codes}
use phynned.Observer.{Bytes}
use phynned.Observer.AcDriverOracle.{to_lower_ascii}
use phynned.Action.Executor.Revert.{exe_ci_equal}
use phynned.Learn.PerGameMemory.{is_nothing}
use phynned.Config.Toml.{is_prefix}

abbrev pub shell_exes : List Bytes
shell_exes =
    codes "explorer.exe"
    ∷ codes "dwm.exe"
    ∷ codes "ApplicationFrameHost.exe"
    ∷ codes "SearchHost.exe"
    ∷ codes "ShellExperienceHost.exe"
    ∷ codes "StartMenuExperienceHost.exe"
    ∷ codes "TextInputHost.exe"
    ∷ codes "LockApp.exe"
    ∷ codes "SystemSettings.exe"
    ∷ codes "LogonUI.exe"
    ∷ codes "Widgets.exe"
    ∷ codes "WidgetService.exe"
    ∷ codes "ctfmon.exe"
    ∷ []

unfoldable pub is_os_shell_process : Bytes → Bool
is_os_shell_process exe_name = not (is_nothing exe_name) && any (exe_ci_equal exe_name) shell_exes

abbrev pub corral_deny : List Bytes
corral_deny =
    codes "audiodg.exe"
    ∷ codes "ctfmon.exe"
    ∷ codes "conhost.exe"
    ∷ codes "dwm.exe"
    ∷ codes "wininit.exe"
    ∷ codes "csrss.exe"
    ∷ codes "services.exe"
    ∷ codes "smss.exe"
    ∷ codes "winlogon.exe"
    ∷ codes "lsass.exe"
    ∷ codes "fontdrvhost.exe"
    ∷ codes "vmmem.exe"
    ∷ codes "vmmemwsl.exe"
    ∷ codes "vmcompute.exe"
    ∷ codes "amd3dvcachesvc.exe"
    ∷ codes "amd3dvcachedetection.exe"
    ∷ codes "easyanticheat.exe"
    ∷ codes "easyanticheatservice.exe"
    ∷ codes "easyanticheat_eos.exe"
    ∷ codes "beservice.exe"
    ∷ codes "beserviceglobal.exe"
    ∷ codes "vgc.exe"
    ∷ codes "vgtray.exe"
    ∷ codes "msmpeng.exe"
    ∷ codes "securityhealthservice.exe"
    ∷ []

-- "no name → never touch"
unfoldable pub is_corral_denied : Bytes → Bool
is_corral_denied exe_name = is_nothing exe_name || any (exe_ci_equal exe_name) corral_deny

-- `strstr`, of a needle that is not empty.
unfoldable pub has_part : Bytes → Bytes → Bool
has_part needle [] = false
has_part needle (c ∷ s) = is_prefix needle (c ∷ s) || has_part needle s

abbrev pub coexist_needles : List Bytes
coexist_needles = codes "processlasso" ∷ codes "processgovernor" ∷ []

unfoldable pub is_coexistence_optimizer : Bytes → Bool
unfolding has_part
is_coexistence_optimizer exe_name =
    let lower = map to_lower_ascii (take 63 exe_name) in
    not (is_nothing exe_name) && any (λ needle. has_part needle lower) coexist_needles
